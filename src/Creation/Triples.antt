-- ===== src/Creation/Triples.antt =====
-- Reasoning on the steps of a creation (rmw_fastrtps_cpp/src/rmw_client.cpp): what holds before, what
-- holds where the code goes on, and where it returns null.
use rmw_fastrtps.Prelude.{Bool, true, false}
use rmw_fastrtps.Creation.{
  Outcome, done, failed, crashed, Step, go_on, ◌⟫◌, check, undo, scope_exit,
}

-- `Crash` is what a crash tells.
module _ {S : Type 0} (Crash : Type 0) where
  abbrev pub IsEnd : (S → Type 0) → (S → Type 0) → Outcome × S → Type 0
  IsEnd Q F (done, s) = Q s
  IsEnd Q F (failed, s) = F s
  IsEnd Q F (crashed, s) = Crash

  pub record Triple (P : S → Type 0) (f : Step S) (Q F : S → Type 0) : Type 0 where
    pub ends : (s : S) → P s → IsEnd Q F (f s)

  go_on-IsEnd :
      (M Q F : S → Type 0) (g : Step S) (t : Outcome × S)
      → Triple M g Q F
      → IsEnd M F t
      → IsEnd Q F (go_on g t)
  go_on-IsEnd M Q F g (done, s) q e = q.ends s e
  go_on-IsEnd M Q F g (failed, s) q e = e
  go_on-IsEnd M Q F g (crashed, s) q e = e

  undo-IsEnd :
      (Q F G : S → Type 0) (cleanup : S → S) (t : Outcome × S)
      → ((s : S) → F s → G (cleanup s))
      → IsEnd Q F t
      → IsEnd Q G (undo cleanup t)
  undo-IsEnd Q F G cleanup (done, s) u e = e
  undo-IsEnd Q F G cleanup (failed, s) u e = u s e
  undo-IsEnd Q F G cleanup (crashed, s) u e = e

  pub then-Triple :
      {P M Q F : S → Type 0} {f g : Step S} → Triple P f M F → Triple M g Q F → Triple P (f ⟫ g) Q F
  unfolding ◌⟫◌
  then-Triple {P} {M} {Q} {F} {f} {g} p q = record {
    ends = λ s h. go_on-IsEnd M Q F g (f s) q (p.ends s h);
  }

  pub check-Triple : {P F : S → Type 0} (b : Bool) → ((s : S) → P s → F s) → Triple P (check b) P F
  unfolding check
  check-Triple true u = record { ends = λ s h. h }
  check-Triple false u = record { ends = λ s h. u s h }

  pub scope_exit-Triple :
      {P Q F G : S → Type 0} (cleanup : S → S) {f : Step S}
      → ((s : S) → F s → G (cleanup s))
      → Triple P f Q F
      → Triple P (scope_exit cleanup f) Q G
  unfolding scope_exit
  scope_exit-Triple {P} {Q} {F} {G} cleanup {f} u p = record {
    ends = λ s h. undo-IsEnd Q F G cleanup (f s) u (p.ends s h);
  }
