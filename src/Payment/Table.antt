-- ===== src/Payment/Table.antt =====
-- payment/repository.go over the table of payments: what its statements do where the database answers.
use nsw_core.Common.{
  String, Bool, false, not, ◌||◌, Option, none, some, List, [], ◌∷◌, str_eq, if◌then◌else◌,
}
use nsw_core.Payment.Transaction.{PaymentError, duplicate_reference, outside, Transaction}

abbrev pub Table : Type 0 → Type 0
Table Amount = List (Transaction Amount)

module _ {Amount : Type 0} where
  -- GetByReferenceNumber, and its variant that locks the row.
  unfoldable pub by_reference : String → Table Amount → Option (Transaction Amount)
  by_reference ref [] = none
  by_reference ref (t ∷ ts) =
      let rest = by_reference ref ts in if str_eq t.reference_number ref then some t else rest

  -- Update: Save writes the whole row of the primary key, or inserts it.
  unfoldable pub save : Transaction Amount → Table Amount → Table Amount
  save t [] = t ∷ []
  save t (s ∷ ts) = let rest = save t ts in if str_eq s.id t.id then t ∷ ts else s ∷ rest

  -- A row with the primary key or the reference of the payment.
  unfoldable pub is_taken : Transaction Amount → Table Amount → Bool
  is_taken t [] = false
  is_taken t (s ∷ ts) =
      (str_eq s.id t.id || str_eq s.reference_number t.reference_number) || is_taken t ts

  -- referenceHeldByAnother
  unfoldable pub is_held_by_another : Transaction Amount → Table Amount → Bool
  unfolding by_reference
  is_held_by_another t ts = elim (by_reference t.reference_number ts) [
    | none ↦ false
    | some holder ↦ not (str_eq holder.id t.id)
  ]

  abbrev pub append : Transaction Amount → Table Amount → Table Amount
  append t [] = t ∷ []
  append t (s ∷ ts) = s ∷ append t ts

  -- Create
  unfoldable pub create : Transaction Amount → Table Amount → Option PaymentError × Table Amount
  unfolding is_taken is_held_by_another
  create t ts =
      if is_taken t ts
      then (if is_held_by_another t ts then (some duplicate_reference, ts) else (some outside, ts))
      else (none, append t ts)

  -- UpdateStatus
  unfoldable pub update_status : String → String → Table Amount → Table Amount
  update_status ref status [] = []
  update_status ref status (t ∷ ts) =
      let rest = update_status ref status ts in
      if str_eq t.reference_number ref then (record t { status = status }) ∷ rest else t ∷ rest
