-- ===== src/Engine/Completion/Once.antt =====
-- Which calls for a waiting step are accepted.
use nsw_core.Common.{
  ℕ, ◌+◌, String, ◌≡◌, refl, Bool, true, false, inl, inr, List, [], ◌∷◌, arith, str_eq, eq_iff,
  mem_text, if◌then◌else◌, Bool-cases,
}
use nsw_core.Engine.Park.{ok, err}
use nsw_core.Engine.State.{without_text}
use nsw_core.Engine.Completion.{
  Request, step_of, delivery, activation_not_pending, handle_request, handle_all,
}

pub mem_text-without_text_self :
    (id : String) (js : List String) → mem_text id (without_text id js) ≡ false
unfolding mem_text without_text
mem_text-without_text_self id [] = refl
mem_text-without_text_self id (j ∷ js) =
    ground (arith, mem_text-without_text_self id js, eq_iff id j)

mem_text-without_text_ne :
    (id k : String) (js : List String)
    → str_eq k id ≡ false
    → mem_text k (without_text id js) ≡ mem_text k js
unfolding mem_text without_text
mem_text-without_text_ne id k [] h = refl
mem_text-without_text_ne id k (j ∷ js) h =
    ground (arith, mem_text-without_text_ne id k js h, eq_iff id j, eq_iff k j, eq_iff k id)

-- How many of the calls for a step are accepted.
abbrev pub accepted_for : String → List Request → List Bool → ℕ
accepted_for id [] bs = 0
accepted_for id (r ∷ rs) [] = 0
accepted_for id (r ∷ rs) (b ∷ bs) =
    let rest = accepted_for id rs bs in
    if str_eq id (step_of r) then if b then rest + 1 else rest else rest

-- Whether some call names the step.
abbrev pub is_called : String → List Request → Bool
is_called id [] = false
is_called id (r ∷ rs) = let rest = is_called id rs in if str_eq id (step_of r) then true else rest

abbrev pub once : Bool → ℕ
once true = 1
once false = 0

request_pending :
    (r : Request) (pending : List String)
    → mem_text (step_of r) pending ≡ true
    → handle_request r pending ≡ (ok (delivery r), without_text (step_of r) pending)
unfolding handle_request
request_pending r pending h = ground arith

request_unknown :
    (r : Request) (pending : List String)
    → mem_text (step_of r) pending ≡ false
    → handle_request r pending ≡ (err (activation_not_pending (step_of r)), pending)
unfolding handle_request
request_unknown r pending h = ground arith

-- Of a sequence of CompleteActivation and ForceParkActivation calls, exactly one of those that name
-- a given step is accepted where the step is waiting at the start and some call names it, and none
-- otherwise.
pub handle_all-once :
    (id : String) (rs : List Request) (pending : List String)
    → accepted_for id rs (handle_all rs pending).0
      ≡ (if mem_text id pending then once (is_called id rs) else 0)
unfolding handle_all
handle_all-once id [] pending = ground arith
handle_all-once id (r ∷ rs) pending = elim (Bool-cases (mem_text (step_of r) pending)) [
  | inl waiting ↦ rw (request_pending r pending waiting) (
      ground (
        arith,
        handle_all-once id rs (without_text (step_of r) pending),
        mem_text-without_text_self (step_of r) pending,
        mem_text-without_text_ne (step_of r) id pending,
        eq_iff id (step_of r),
      ))
  | inr unknown ↦
      rw (request_unknown r pending unknown)
        (ground (arith, handle_all-once id rs pending, eq_iff id (step_of r)))
]
