-- ===== src/Commerce/Model.antt =====
-- backend/internal/domain/commerce: orders, payments, invoices, wallets and the ledger. A JSON
-- column is a text, and the fields of plans and products that no modelled operation reads are left
-- out, as are the moments at which rows are made and updated. The items of an order are the rows of
-- its id in order_items, not a field. Amounts are Go's int64.
use vps_billing_gemini.Prelude.{ℕ, Bool, true, false, Option, String}
use vps_billing_gemini.Prelude.Int.{ℤ}

pub data Error : Type 0 where
  product_not_found plan_not_found plan_inactive order_not_found invalid_order_status : Error
  empty_order_items payment_not_found payment_already_processed invalid_payment_amount : Error
  invalid_currency invalid_webhook_signature invoice_not_found : Error
  -- the errors that the services make with errors.New and fmt.Errorf
  invalid_quantity unsupported_gateway malformed_webhook payment_not_successful : Error
  invalid_deposit_amount : Error
  -- any error that a statement, Begin or Commit returns
  db_error : Error

pub data AccountType : Type 0 where
  payment_gateway platform_revenue user_wallet accounts_receivable : AccountType

pub data Direction : Type 0 where
  debit credit : Direction

pub data OrderStatus : Type 0 where
  pending paid fulfilling fulfilled cancelled refund_pending refunded : OrderStatus

pub data PaymentStatus : Type 0 where
  pending processing succeeded failed refunded : PaymentStatus

pub data InvoiceStatus : Type 0 where
  pending paid cancelled refunded : InvoiceStatus

pub record Product : Type 0 where
  pub id : ℕ
  pub slug : String
  pub status : String

pub record Plan : Type 0 where
  pub id : ℕ
  pub product_id : ℕ
  pub slug : String
  pub status : String
  pub billing_cycle : String
  pub price_minor : ℤ
  pub currency : String

pub record OrderItem : Type 0 where
  pub id : ℕ
  pub order_id : ℕ
  pub product_id : ℕ
  pub plan_id : ℕ
  pub quantity : ℤ
  pub unit_price_minor : ℤ
  pub total_minor : ℤ
  pub product_snapshot : String
  pub plan_snapshot : String

pub record Order : Type 0 where
  pub id : ℕ
  pub order_no : String
  pub user_id : ℕ
  pub status : OrderStatus
  pub subtotal_minor : ℤ
  pub discount_minor : ℤ
  pub total_minor : ℤ
  pub currency : String
  pub paid_at : Option ℕ

pub record Payment : Type 0 where
  pub id : ℕ
  pub payment_no : String
  pub order_id : ℕ
  pub gateway : String
  pub gateway_payment_id : Option String
  pub status : PaymentStatus
  pub amount_minor : ℤ
  pub currency : String
  pub idempotency_key : String
  pub gateway_payload : String
  pub paid_at : Option ℕ

pub record Invoice : Type 0 where
  pub id : ℕ
  pub invoice_no : String
  pub user_id : ℕ
  pub subscription_id : Option ℕ
  pub order_id : Option ℕ
  pub status : InvoiceStatus
  pub amount_minor : ℤ
  pub currency : String
  pub due_at : Option ℕ
  pub paid_at : Option ℕ

pub record InvoiceItem : Type 0 where
  pub id : ℕ
  pub invoice_id : ℕ
  pub description_i18n : String
  pub quantity : ℤ
  pub unit_amount_minor : ℤ
  pub total_minor : ℤ

pub record Wallet : Type 0 where
  pub id : ℕ
  pub user_id : ℕ
  pub currency : String
  pub available_balance_minor : ℤ

-- The field `kind` is the column `type`.
pub record LedgerTransaction : Type 0 where
  pub id : ℕ
  pub kind : String
  pub reference_type : String
  pub reference_id : ℕ
  pub description : String

pub record LedgerEntry : Type 0 where
  pub id : ℕ
  pub transaction_id : ℕ
  pub account_type : AccountType
  pub account_id : ℕ
  pub direction : Direction
  pub amount_minor : ℤ
  pub currency : String

pub record OutboxEvent : Type 0 where
  pub id : ℕ
  pub event_type : String
  pub aggregate_type : String
  pub aggregate_id : ℕ

abbrev pub is_succeeded : PaymentStatus → Bool
is_succeeded succeeded = true
is_succeeded _ = false

abbrev pub is_pending : OrderStatus → Bool
is_pending pending = true
is_pending _ = false

abbrev pub system_account_payment_gateway : ℕ
system_account_payment_gateway = 1

abbrev pub system_account_platform_revenue : ℕ
system_account_platform_revenue = 2
