-- ===== src/Commerce/Totals.antt =====
-- What CreateOrder charges: the prices of the plans times the quantities, in one currency.
use vps_billing_gemini.Prelude.{
  ℕ, ◌≡◌, refl, sym, subst, ap, ◌∙◌, ◌⊎◌, inl, inr, String, Bool, true, false, List, [], ◌∷◌, ◌++◌,
  some, ok, arith, All, All-imp, str_eq, eq_iff, if◌then◌else◌, Option-cases, Bool-cases,
  Result-cases,
}
use vps_billing_gemini.Prelude.Int.{
  ℤ, pos, negsuc, ◌+ℤ◌, ◌*ℤ◌, ◌≤ℤ◌, leb_ℤ, int64, IsInt64, int64_exact, +ℤ_comm, +ℤ_assoc,
}
use vps_billing_gemini.Prelude.Table.{total_of, total_of_nonneg, All-find_by, find_by_own}
use vps_billing_gemini.Commerce.Model.{Plan, Product, OrderItem}
use vps_billing_gemini.Commerce.Store.{Books, find_plan, find_product}
use vps_billing_gemini.Commerce.Orders.{
  CreateOrderItemInput, Draft, Surroundings, order_item, agree_currency, draft_item,
}

-- The exact price of an item.
abbrev pub exact_price : OrderItem → ℤ
exact_price i = i.unit_price_minor *ℤ i.quantity

-- CHECK (price_minor >= 0) of the plans.
abbrev pub IsPriced : Plan → Type 0
IsPriced p = pos 0 ≤ℤ p.price_minor

-- An item is of an active plan at the plan's price; its plan is of the currency `currency`, or of
-- no currency.
pub record Charged (db : Books) (currency : String) (i : OrderItem) : Type 0 where
  pub plan : Plan
  pub plan_there : find_plan i.plan_id db.plans ≡ some plan
  pub is_active : str_eq plan.status "active" ≡ true
  pub price : i.unit_price_minor ≡ plan.price_minor
  pub total : i.total_minor ≡ int64 (exact_price i)
  pub nonneg : pos 0 ≤ℤ exact_price i
  pub agrees : (plan.currency ≡ currency) ⊎ (plan.currency ≡ "")

*ℤ_nonneg : (a b : ℤ) → pos 0 ≤ℤ a → leb_ℤ b (pos 0) ≡ false → pos 0 ≤ℤ a *ℤ b
unfolding ◌*ℤ◌
*ℤ_nonneg (pos m) (pos n) h k = ground arith
*ℤ_nonneg (pos m) (negsuc n) h k = absurd (ground arith)
*ℤ_nonneg (negsuc m) b h k = absurd (ground arith)

agreed :
    (a b c : String)
    → agree_currency a b ≡ ok c
    → ((str_eq a "" ≡ true) ⊎ (a ≡ b)) × (c ≡ (if str_eq a "" then b else a))
agreed a b c h = elim (Bool-cases (str_eq a "")) [
  | inl none_yet ↦ (inl none_yet, ground arith)
  | inr chosen ↦ elim (Bool-cases (str_eq a b)) [
    | inl same ↦ (inr ((eq_iff a b).0 same), ground arith)
    | inr mixed ↦ absurd (ground arith)
  ]
]

pub drafted :
    (fails : ℕ → Bool) (env : Surroundings) (db : Books) (k : ℕ) (input : CreateOrderItemInput)
    (draft draft' : Draft)
    → draft_item fails env db k input draft ≡ ok draft'
    → (plan : Plan) × (product : Product) × (find_plan input.plan_id db.plans ≡ some plan)
      × (str_eq plan.status "active" ≡ true)
      × (leb_ℤ input.quantity (pos 0) ≡ false)
      × (draft' ≡ record {
        subtotal_minor = int64 (draft.subtotal_minor +ℤ int64 (plan.price_minor *ℤ input.quantity));
        currency = if str_eq draft.currency "" then plan.currency else draft.currency;
        order_items = draft.order_items ++ (order_item env k input.quantity plan product ∷ []);
      })
      × ((str_eq draft.currency "" ≡ true) ⊎ (draft.currency ≡ plan.currency))
unfolding draft_item
drafted fails env db k input draft draft' h =
    elim (Option-cases (find_plan input.plan_id db.plans)) [
      | inl absent ↦ absurd (ground arith)
      | inr (plan, there) ↦ elim (Option-cases (find_product plan.product_id db.products)) [
        | inl gone ↦ absurd (ground arith)
        | inr (product, made) ↦ elim (Result-cases (agree_currency draft.currency plan.currency)) [
          | inr (e, mixed) ↦ absurd (ground arith)
          | inl (c, same) ↦
              let (agree, chosen) = agreed draft.currency plan.currency c same in
              (plan, product, there, ground arith, ground arith, ground arith, agree)
        ]
      ]
    ]

total_of-append :
    (w : OrderItem → ℤ) (xs : List OrderItem) (x : OrderItem)
    → total_of w (xs ++ (x ∷ [])) ≡ total_of w xs +ℤ w x
total_of-append w [] x = +ℤ_comm (w x) (pos 0)
total_of-append w (y ∷ ys) x =
    ap (λ t. w y +ℤ t) (total_of-append w ys x) ∙ sym (+ℤ_assoc (w y) (total_of w ys) (w x))

All-append :
    (P : OrderItem → Type 0) (xs : List OrderItem) (x : OrderItem)
    → All P xs
    → P x
    → All P (xs ++ (x ∷ []))
All-append P [] x h k = (k, tt)
All-append P (y ∷ ys) x h k = (h.0, All-append P ys x h.1 k)

abbrev pub exact_total : List OrderItem → ℤ
exact_total items = total_of exact_price items

pub record IsDrafted (db : Books) (draft : Draft) : Type 0 where
  pub items : All (Charged db draft.currency) draft.order_items
  pub sum :
      IsInt64 (exact_total draft.order_items) → draft.subtotal_minor ≡ exact_total draft.order_items

Charged-moved :
    (db : Books) (a b : String)
    → (str_eq a "" ≡ true) ⊎ (a ≡ b)
    → (i : OrderItem) → Charged db a i
    → Charged db (if str_eq a "" then b else a) i
Charged-moved db a b agree i c = record {
  plan = c.plan;
  plan_there = c.plan_there;
  is_active = c.is_active;
  price = c.price;
  total = c.total;
  nonneg = c.nonneg;
  agrees = elim (Bool-cases (str_eq a "")) [
    | inl none_yet ↦ elim c.agrees [
      | inl same ↦ inr (same ∙ (eq_iff a "").0 none_yet)
      | inr free ↦ inr free
    ]
    | inr chosen ↦ rw chosen c.agrees
  ];
}

new_agrees : (a b : String) → (str_eq a "" ≡ true) ⊎ (a ≡ b) → b ≡ (if str_eq a "" then b else a)
new_agrees a b (inl none_yet) = rw none_yet refl
new_agrees a b (inr same) = ground arith

IsInt64-parts : (a b : ℤ) → pos 0 ≤ℤ a → pos 0 ≤ℤ b → IsInt64 (a +ℤ b) → IsInt64 a × IsInt64 b
unfolding ◌+ℤ◌
IsInt64-parts (pos m) (pos n) h k fits = (ground arith, ground arith)
IsInt64-parts (pos m) (negsuc n) h k fits = absurd (ground arith)
IsInt64-parts (negsuc m) b h k fits = absurd (ground arith)

add_item-IsDrafted :
    (db : Books) (draft : Draft) (b : String) (i : OrderItem)
    → (str_eq draft.currency "" ≡ true) ⊎ (draft.currency ≡ b)
    → Charged db (if str_eq draft.currency "" then b else draft.currency) i
    → IsDrafted db draft
    → IsDrafted db (record {
      subtotal_minor = int64 (draft.subtotal_minor +ℤ int64 (exact_price i));
      currency = if str_eq draft.currency "" then b else draft.currency;
      order_items = draft.order_items ++ (i ∷ []);
    })
add_item-IsDrafted db draft b i agree c d = record {
  items =
      All-append _ draft.order_items i
        (All-imp _ _ (Charged-moved db draft.currency b agree) draft.order_items d.items) c;
  sum = λ fits.
      let e = total_of-append exact_price draft.order_items i in
      let fits' = subst IsInt64 e fits in
      let nonneg =
        total_of_nonneg (Charged db draft.currency) exact_price (λ r h. h.nonneg) draft.order_items
          d.items in
      let (fits_sum, fits_price) =
        IsInt64-parts (exact_total draft.order_items) (exact_price i) nonneg c.nonneg fits' in
      rw (int64_exact (exact_price i) fits_price, d.sum fits_sum) (int64_exact _ fits' ∙ sym e);
}

pub draft_item-IsDrafted :
    (fails : ℕ → Bool) (env : Surroundings) (db : Books) (k : ℕ) (input : CreateOrderItemInput)
    (draft draft' : Draft)
    → All IsPriced db.plans
    → IsDrafted db draft
    → draft_item fails env db k input draft ≡ ok draft'
    → IsDrafted db draft'
draft_item-IsDrafted fails env db k input draft draft' priced d h =
    let (plan, product, there, is_active, positive, result, agree) =
      drafted fails env db k input draft draft' h in
    let i = order_item env k input.quantity plan product in
    subst (IsDrafted db) (sym result) (
      add_item-IsDrafted db draft plan.currency i agree
        (record {
          plan = plan;
          plan_there = find_by_own Plan.id input.plan_id db.plans plan there;
          is_active = is_active;
          price = refl;
          total = refl;
          nonneg =
              *ℤ_nonneg plan.price_minor input.quantity
                (All-find_by IsPriced Plan.id input.plan_id db.plans plan priced there) positive;
          agrees = inl (new_agrees draft.currency plan.currency agree);
        })
        d)
