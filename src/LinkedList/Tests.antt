-- ===== src/LinkedList/Tests.antt =====
-- The theorems on the linked list at a list of three nodes.
use cs537_intro_to_os.Prelude.{ℕ, ◌≡◌, refl, none, some, List, [], ◌∷◌, All, arith, update}
use cs537_intro_to_os.LinkedList.{State, ll_delete_node, ll_free}
use cs537_intro_to_os.LinkedList.Chain.{Holds, Without}
use cs537_intro_to_os.LinkedList.Insert.{node}
use cs537_intro_to_os.LinkedList.Remove.{ll_delete_node-Holds}
use cs537_intro_to_os.LinkedList.Walk.{ll_free-frees}

abbrev jobs : List (ℕ × ℕ)
jobs = (10, 7) ∷ (20, 8) ∷ (30, 7) ∷ []

abbrev three : State
three = record {
  cells =
      update
        (update (update (λ p. none) 10 (some (node none (some 20) 7))) 20
          (some (node (some 10) (some 30) 8)))
        30 (some (node (some 20) none 7));
  head = some 10;
  tail = some 30;
}

three-Holds : Holds jobs three
three-Holds = record {
  at_head = refl;
  at_tail = refl;
  linked = (refl, (refl, (refl, tt)));
  distinct = (((λ e. omega arith), ((λ e. omega arith), tt)), (((λ e. omega arith), tt), (tt, tt)));
}

ll_delete_node-Holds_example :
    (s' : State) × (ll_delete_node 4 8 three ≡ some s') × Holds ((10, 7) ∷ (30, 7) ∷ []) s'
ll_delete_node-Holds_example = ll_delete_node-Holds 4 8 three jobs three-Holds (omega arith)

ll_free-frees_example :
    (s' : State) × (ll_free 4 three ≡ some s')
    × Holds [] s'
    × All (λ q. s'.cells q.0 ≡ none) jobs
    × ((p : ℕ) → Without p jobs → s'.cells p ≡ three.cells p)
ll_free-frees_example = ll_free-frees 4 three jobs three-Holds (omega arith)
