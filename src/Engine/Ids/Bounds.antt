-- ===== src/Engine/Ids/Bounds.antt =====
-- The length of a child workflow's ID.
use Prim.Native.String.{◌++◌ as concat}
use Prim.Native.String.append.{nil, cons}
use nsw_core.Common.{
  ap, ℕ, zero, suc, ◌+◌, ◌-◌, ◌*◌, ◌≤◌, String, ◌≡◌, refl, inl, inr, arith, leb, leb→le, Bool-cases,
}
use nsw_core.Engine.Ids.{
  text_length, take_text, max_workflow_id_len, max_prefix_for_child_id, bound_prefix_for_child_id,
  format_child_workflow_id,
}

text_length-concat : (s t : String) → text_length (concat s t) ≡ text_length s + text_length t
unfolding text_length
text_length-concat String.[] t = omega (arith, ap text_length (nil t))
text_length-concat (String.◌∷◌ c s) t =
    omega (arith, ap text_length (cons c s t), text_length-concat s t)

text_length-take_text : (n : ℕ) (s : String) → text_length (take_text n s) ≤ n
unfolding text_length take_text
text_length-take_text zero s = omega arith
text_length-take_text (suc n) String.[] = omega arith
text_length-take_text (suc n) (String.◌∷◌ c s) = omega (arith, text_length-take_text n s)

length-tilde : text_length "~" ≡ 1
unfolding text_length
length-tilde = refl

length-dashes : text_length "--" ≡ 2
unfolding text_length
length-dashes = refl

module _ (hash_hex : ℕ → String → String)
    (hex_length : (n : ℕ) (s : String) → text_length (hash_hex n s) ≡ 2 * n) where
  bound_prefix-le :
      (root : String)
      → text_length (bound_prefix_for_child_id hash_hex root) ≤ max_prefix_for_child_id
  unfolding bound_prefix_for_child_id
  bound_prefix-le root = elim (Bool-cases (leb (text_length root) max_prefix_for_child_id)) [
    | inl fits ↦ rw fits (leb→le _ _ fits)
    | inr long ↦ rw long (
        omega (
          arith,
          hex_length 4 root,
          text_length-concat
              (take_text (max_prefix_for_child_id - text_length (hash_hex 4 root) - 1) root)
              (concat "~" (hash_hex 4 root)),
          text_length-concat "~" (hash_hex 4 root),
          length-tilde,
          text_length-take_text (max_prefix_for_child_id - text_length (hash_hex 4 root) - 1) root,
        ))
  ]

  -- Where the hex text of n bytes has 2n characters, a child workflow ID has at most 255 bytes,
  -- however long the case ID and the other IDs are.
  pub format_child_workflow_id-le :
      (case_id parent_id node_id branch_id : String)
      → text_length (format_child_workflow_id hash_hex case_id parent_id node_id branch_id)
        ≤ max_workflow_id_len
  unfolding format_child_workflow_id
  format_child_workflow_id-le case_id parent_id node_id branch_id =
      let path = concat parent_id (concat "|" (concat node_id (concat "|" branch_id))) in
      omega (
        arith,
        bound_prefix-le case_id,
        hex_length 8 path,
        text_length-concat (bound_prefix_for_child_id hash_hex case_id)
            (concat "--" (hash_hex 8 path)),
        text_length-concat "--" (hash_hex 8 path),
        length-dashes,
      )
