-- ===== src/Engine/Ids.antt =====
-- FormatChildWorkflowID and boundPrefixForChildID of workflow/utils.go. A text is taken as the sequence
-- of its bytes, each a character.
pub mod Bounds
use Prim.Native.String.{◌++◌ as concat}
use nsw_core.Common.{ℕ, zero, suc, ◌+◌, ◌-◌, String, leb, if◌then◌else◌}

-- len(s), and s[:n] where n is at most that.
unfoldable pub text_length : String → ℕ
text_length String.[] = 0
text_length (String.◌∷◌ c s) = text_length s + 1

unfoldable pub take_text : ℕ → String → String
take_text zero s = ""
take_text (suc n) String.[] = ""
take_text (suc n) (String.◌∷◌ c s) = String.◌∷◌ c (take_text n s)

abbrev pub max_workflow_id_len : ℕ
max_workflow_id_len = 255

abbrev pub child_id_suffix_len : ℕ
child_id_suffix_len = 2 + 16

abbrev pub max_prefix_for_child_id : ℕ
max_prefix_for_child_id = max_workflow_id_len - child_id_suffix_len

-- `hash_hex n s` is the hex text of the first n bytes of the SHA-256 sum of s.
module _ (hash_hex : ℕ → String → String) where
  unfoldable pub bound_prefix_for_child_id : String → String
  unfolding text_length take_text
  bound_prefix_for_child_id root =
      let suffix = hash_hex 4 root in
      if leb (text_length root) max_prefix_for_child_id
      then root
      else concat (take_text (max_prefix_for_child_id - text_length suffix - 1) root)
          (concat "~" suffix)

  unfoldable pub format_child_workflow_id : String → String → String → String → String
  unfolding bound_prefix_for_child_id
  format_child_workflow_id case_id parent_id node_id branch_id =
      concat (bound_prefix_for_child_id case_id) (
        concat "--"
          (hash_hex 8 (concat parent_id (concat "|" (concat node_id (concat "|" branch_id))))))
