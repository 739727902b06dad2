-- ===== src/Provisioning/Model.antt =====
-- What a workflow of backend/internal/workflow works on: the tables, the requests and answers of
-- backend/internal/provider/provider.go, and what surrounds a run. A provider is a parameter: how it
-- answers each request. A text made of an id is a function of its number.
use vps_billing_gemini.Prelude.{
  ℕ, Bool, List, [], ◌∷◌, Option, none, some, String, str_eq, if◌then◌else◌, Result, text_append,
}
use vps_billing_gemini.Prelude.Int.{ℤ}
use vps_billing_gemini.Infrastructure.Model.{Error as InfrastructureError}
use vps_billing_gemini.Infrastructure.Store.{Tables}
use vps_billing_gemini.Infrastructure.Instances.{Instance}
use vps_billing_gemini.Infrastructure.Scheduler.{Floats, World}
use vps_billing_gemini.Operations.Model.{Operation}
use vps_billing_gemini.Operations.Steps.{OperationStep}
use vps_billing_gemini.Subscriptions.Model.{Error as SubscriptionError, Subscription}

pub data Error : Type 0 where
  infrastructure : InfrastructureError → Error
  subscription : SubscriptionError → Error
  plan_not_found no_provider db_error : Error
  provider_error : String → Error

-- The fields of a plan that a workflow reads.
pub record PlanResources : Type 0 where
  pub id : ℕ
  pub node_group_id : Option ℕ
  pub cpu_cores : ℤ
  pub memory_mb : ℤ
  pub disk_gb : ℤ
  pub traffic_gb : Option ℤ
  pub bandwidth_mbps : Option ℤ
  pub ipv4_count : ℕ
  pub ipv6_count : ℕ
  pub nat_port_count : ℕ
  pub virtualization : String

pub record CreateInstanceRequest : Type 0 where
  pub operation_id : ℕ
  pub idempotency_key : String
  pub node_id : ℕ
  pub instance_id : ℕ
  pub name : String
  pub cpu_cores : ℤ
  pub memory_mb : ℤ
  pub disk_gb : ℤ
  pub traffic_gb : Option ℤ
  pub bandwidth_mbps : Option ℤ
  pub ipv4_count : ℕ
  pub ipv6_count : ℕ
  pub nat_port_count : ℕ
  pub image : String
  pub virtualization : String

pub record GetInstanceRequest : Type 0 where
  pub node_id : Option ℕ
  pub provider_instance_id : String
  pub platform_instance_id : ℕ

pub record InstanceActionRequest : Type 0 where
  pub operation_id : ℕ
  pub idempotency_key : String
  pub node_id : Option ℕ
  pub provider_instance_id : String

-- The field `instance_id` is the text under "provider_instance_id" in the metadata.
pub record ProviderOperation : Type 0 where
  pub provider_operation_id : String
  pub instance_id : Option String

pub record ProviderInstance : Type 0 where
  pub provider_instance_id : String
  pub state : String
  pub ipv4 : List String
  pub ipv6 : List String

-- The actions of the interface that change an instance.
pub data Action : Type 0 where
  start stop restart delete : Action
  reinstall : String → Action
  reset_password : String → Action

pub record Provider : Type 0 where
  pub create_instance : CreateInstanceRequest → Result Error ProviderOperation
  pub get_instance : GetInstanceRequest → Result Error ProviderInstance
  pub act : Action → InstanceActionRequest → Result Error ProviderOperation

-- The tables.
pub record State : Type 0 where
  pub tables : Tables
  pub instances : List Instance
  pub subscriptions : List Subscription
  pub operations : List Operation
  pub steps : List OperationStep

-- The database's failures of single statements, of ignored updates and of transactions, the clock,
-- fresh ids and texts, the plans, the registered providers by their keys, and what SelectAndReserve
-- is surrounded by. An index counts the calls of its kind in the order of the code.
pub record Env : Type 1 where
  pub fails : ℕ → Bool
  pub lost : ℕ → Bool
  pub release_fails : ℕ → Bool
  pub commit_fails : ℕ → Bool
  pub clock : ℕ → ℕ
  pub list_fails : Bool
  pub floats : Floats
  pub world : World
  pub plans : List PlanResources
  pub providers : List (String × Provider)
  pub instance_id : ℕ
  pub uuid_text : ℕ → String
  pub short_text : ℕ → String
  pub message : String → Error → String
  pub parse_ip : String → Option String
  pub new_password : String

abbrev pub lookup_provider : String → List (String × Provider) → Option Provider
lookup_provider key [] = none
lookup_provider key ((k, p) ∷ rest) = if str_eq k key then some p else lookup_provider key rest

-- Which provider `for _, p := range providers` meets first is not defined: here the first of the list.
abbrev pub any_provider : List (String × Provider) → Option Provider
any_provider [] = none
any_provider ((k, p) ∷ rest) = some p

abbrev pub or_else : Option Provider → Option Provider → Option Provider
or_else none second = second
or_else (some p) second = some p

-- The provider of a key, the default one, or any.
unfoldable pub resolve_provider : String → List (String × Provider) → Option Provider
resolve_provider key providers =
    or_else (lookup_provider key providers)
      (or_else (lookup_provider "default" providers) (any_provider providers))

-- The id that a provider is taken to use when it names none.
abbrev pub mock_vm : Env → ℕ → String
mock_vm env id = text_append "mock-vm-" (env.uuid_text id)

-- `if provInstID == ""`.
abbrev pub named_or : String → Option String → String
named_or default none = default
named_or default (some text) = if str_eq text "" then default else text
