-- ===== src/Kernel/PingPong/Finish.antt =====
-- From each round on, some order of the moves leads both processes behind their loops.
use famaf_unc.Kernel.PingPong.Rounds.{IsRound, of_child, of_parent, child-Apart, parent-Apart}
use famaf_unc.Kernel.Semaphore.{Kernel, max_sem}
use famaf_unc.Kernel.PingPong.{Game, Turn, finished, ping_of, pong_of, move, step, play, Word}
use famaf_unc.Kernel.PingPong.Turns.{
  HasTurn, Active, is_free, prints_next, raises_next, Idle, moves_left, move_turn, move_last,
}
use famaf_unc.Base.{
  ℕ, zero, suc, ◌<◌, ◌≡◌, refl, subst, Bool, true, false, List, [], ◌∷◌, ◌==◌, arith, inl, inr,
}

module _ (n child_pid pid : ℕ) (valid : pong_of pid < max_sem)
    (apart : (child_pid == pid) ≡ false) where
  -- A schedule after which both are behind their loops.
  abbrev pub CanFinish : Game → Type 0
  CanFinish g =
      (schedule : List Bool) × ((play child_pid pid schedule g).child ≡ finished)
      × ((play child_pid pid schedule g).parent ≡ finished)

  CanFinish-step : (b : Bool) (g : Game) → CanFinish (step child_pid pid b g) → CanFinish g
  unfolding play
  CanFinish-step b g (bs, c, p) = (b ∷ bs, c, p)

  abbrev ChildGoal : ℕ → Type 0
  ChildGoal m =
      (g : Game) (b : Bool)
      → HasTurn g.kernel (ping_of pid) (pong_of pid) child_pid pid g.child m b g.parent m
      → CanFinish g

  abbrev ParentGoal : ℕ → Type 0
  ParentGoal m =
      (g : Game) (b : Bool)
      → HasTurn g.kernel (pong_of pid) (ping_of pid) pid child_pid g.parent (suc m) b g.child m
      → CanFinish g

  Active-Idle :
      {k : Kernel} {own p m : ℕ} {t : Turn} {b : Bool}
      → Active k own p t m b
      → m ≡ 0
      → Idle k own 1 p t m
  Active-Idle (is_free one idle) e = idle
  Active-Idle (prints_next shut p) e = absurd (omega arith)
  Active-Idle (raises_next shut p) e = absurd (omega arith)

  last-finishes : (m : ℕ) → m ≡ 0 → ChildGoal m
  unfolding play step
  last-finishes m e g b h =
      let c =
        move_last Word g.kernel (ping_of pid) (pong_of pid) child_pid pid
          (child-Apart n child_pid pid valid apart) 1 g.child m (Active-Idle h.active e) e in
      let k = (move child_pid (ping_of pid) (pong_of pid) g.child g.kernel).0 in
      let idle : Idle k (pong_of pid) 0 pid g.parent m =
        elim (move_turn Word g.kernel (ping_of pid) (pong_of pid) child_pid pid
          (child-Apart n child_pid pid valid apart) h) [
            | inl (c, h2, nearer, words) ↦ h2.rest
            | inr (l, e2, e3, h2, words) ↦ absurd (omega arith)
          ] in
      let p =
        move_last Word k (pong_of pid) (ping_of pid) pid child_pid
          (parent-Apart n child_pid pid valid apart) 0 g.parent m idle e in
      (true ∷ false ∷ [], c, p)

  -- With the moves that are left counted by `near`.
  child-finishes :
      (m near : ℕ)
      → ((l : ℕ) → m ≡ suc l → ParentGoal l)
      → (g : Game) (b : Bool) → moves_left g.child < near
      → HasTurn g.kernel (ping_of pid) (pong_of pid) child_pid pid g.child m b g.parent m
      → CanFinish g
  unfolding step
  child-finishes m zero goal g b f h = absurd (omega arith)
  child-finishes m (suc near) goal g b f h =
      elim (move_turn Word g.kernel (ping_of pid) (pong_of pid) child_pid pid
        (child-Apart n child_pid pid valid apart) h) [
          | inl (c, h2, inl e, words) ↦ last-finishes m e g b h
          | inl (c, h2, inr less, words) ↦
              CanFinish-step true g
                (child-finishes m near goal (step child_pid pid true g) c (omega arith) h2)
          | inr (l, e2, e3, h2, words) ↦ CanFinish-step true g (
              goal l e2 (step child_pid pid true g) false (
                subst
                  (λ z.
                    HasTurn (move child_pid (ping_of pid) (pong_of pid) g.child g.kernel).0
                      (pong_of pid) (ping_of pid) pid child_pid g.parent z false
                      (move child_pid (ping_of pid) (pong_of pid) g.child g.kernel).1 l)
                  e2 h2))
        ]

  parent-finishes :
      (m near : ℕ)
      → ChildGoal m
      → (g : Game) (b : Bool) → moves_left g.parent < near
      → HasTurn g.kernel (pong_of pid) (ping_of pid) pid child_pid g.parent (suc m) b g.child m
      → CanFinish g
  unfolding step
  parent-finishes m zero goal g b f h = absurd (omega arith)
  parent-finishes m (suc near) goal g b f h =
      elim (move_turn Word g.kernel (pong_of pid) (ping_of pid) pid child_pid
        (parent-Apart n child_pid pid valid apart) h) [
          | inl (c, h2, inl e, words) ↦ absurd (omega arith)
          | inl (c, h2, inr less, words) ↦
              CanFinish-step false g
                (parent-finishes m near goal (step child_pid pid false g) c (omega arith) h2)
          | inr (l, e2, e3, h2, words) ↦
              let same : l ≡ m = omega arith in
              CanFinish-step false g (
                goal (step child_pid pid false g) false (
                  subst
                    (λ z.
                      HasTurn (move pid (pong_of pid) (ping_of pid) g.parent g.kernel).0
                        (ping_of pid) (pong_of pid) child_pid pid g.child m false
                        (move pid (pong_of pid) (ping_of pid) g.parent g.kernel).1 z)
                    same h2))
        ]

  finishes : (m : ℕ) → ChildGoal m
  finishes zero g b h = last-finishes 0 refl g b h
  finishes (suc m) g b h =
      child-finishes (suc m) (suc (moves_left g.child))
        (λ l e. subst ParentGoal (let same : m ≡ l = omega arith in same) (λ g2 c h2.
          parent-finishes m (suc (moves_left g2.parent)) (finishes m) g2 c (omega arith) h2))
        g b (omega arith) h

  pub IsRound-CanFinish : (g : Game) → IsRound n child_pid pid g → CanFinish g
  IsRound-CanFinish g (of_child i m b e h out) = finishes m g b h
  IsRound-CanFinish g (of_parent i m b e h out) =
      parent-finishes m (suc (moves_left g.parent)) (finishes m) g b (omega arith) h
