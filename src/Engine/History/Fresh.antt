-- ===== src/Engine/History/Fresh.antt =====
-- The step number that a run of a node gets.
use nsw_core.Common.{◌<◌, String, ◌≡◌, refl, some, List, [], ◌∷◌, arith}
use nsw_core.Engine.State.{NodeInfo, find_info, update_info}
use nsw_core.Engine.Runtime.{Runtime}
use nsw_core.Engine.Exec.{State, modify}
use nsw_core.Engine.Nodes.{mint_activation}
use nsw_core.Engine.History.{Minted}

find_info-update_info_self :
    (id : String) (f : NodeInfo → NodeInfo) (m : List (String × NodeInfo)) (i : NodeInfo)
    → find_info id m ≡ some i
    → find_info id (update_info id f m) ≡ some (f i)
unfolding find_info update_info
find_info-update_info_self id f [] i h = absurd (ground arith)
find_info-update_info_self id f ((j, k) ∷ m) i h =
    ground (arith, find_info-update_info_self id f m i)

module _ {rt : Runtime} where
  -- Where no node has a step number above the counter, a run of a known node gets a step number
  -- above those of all nodes before it, itself included, and the activation ID that belongs to that
  -- number.
  pub mint_activation-IsFresh :
      (id : String) (i : NodeInfo) (s : State rt)
      → Minted s.g
      → find_info id s.g.instance.node_info ≡ some i
      → (k : NodeInfo) × (find_info id (mint_activation id s).1.g.instance.node_info ≡ some k)
        × (k.activation_id ≡ rt.activation_uuid s.g.instance.id id k.seq)
        × ((j : String) (old : NodeInfo)
            → find_info j s.g.instance.node_info ≡ some old
            → old.seq < k.seq)
  unfolding mint_activation modify
  mint_activation-IsFresh id i s m h = (
    _,
    find_info-update_info_self id _ s.g.instance.node_info i h,
    refl,
    λ j old p. omega (arith, m j old p),
  )
