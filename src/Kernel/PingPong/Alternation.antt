-- ===== src/Kernel/PingPong/Alternation.antt =====
-- In every interleaving the two processes print in turn.
use famaf_unc.Kernel.PingPong.Rounds.{
  said, IsRound, of_child, of_parent, play-IsRound, start-IsRound,
}
use famaf_unc.Kernel.PingPong.Finish.{CanFinish, IsRound-CanFinish}
use famaf_unc.Kernel.Semaphore.{Kernel, user, max_sem}
use famaf_unc.Kernel.PingPong.{Game, Turn, finished, say_ping, ping_of, pong_of, start, play}
use famaf_unc.Kernel.PingPong.Turns.{
  Active, is_free, prints_next, raises_next, Idle, is_ready, is_done, sleeps, is_awake,
}
use famaf_unc.Base.{
  ℕ, suc, ◌<◌, ◌≤◌, ◌≡◌, refl, ap, ◌∙◌, Bool, true, false, List, ◌∷◌, some, ◌==◌, arith, inl, inr,
  ◌⊎◌,
}

Idle-finished :
    {k : Kernel} {own v pid m : ℕ} {t : Turn} → Idle k own v pid t m → t ≡ finished → m ≡ 0
Idle-finished (is_ready p) e = absurd cc
Idle-finished (is_done p) e = refl
Idle-finished (sleeps p z) e = absurd cc
Idle-finished (is_awake p) e = absurd cc

pub Active-finished :
    {k : Kernel} {own pid m : ℕ} {t : Turn} {b : Bool}
    → Active k own pid t m b
    → t ≡ finished
    → m ≡ 0
Active-finished (is_free one p) e = Idle-finished p e
Active-finished (prints_next shut p) e = absurd cc
Active-finished (raises_next shut p) e = absurd cc

pub Active-printed : {k : Kernel} {own pid m : ℕ} {t : Turn} → Active k own pid t m true → 0 < m
Active-printed (raises_next shut p) = omega arith

module _ (n child_pid pid : ℕ) (valid : pong_of pid < max_sem)
    (apart : (child_pid == pid) ≡ false) where
  -- What a round says of the output.
  abbrev pub Alternates : Game → Type 0
  Alternates g =
      ((i : ℕ) × (i ≤ n) × ((g.printed ≡ said i) ⊎ ((g.printed ≡ say_ping ∷ said i) × (i < n))))
      × (g.child ≡ finished → g.parent ≡ finished → g.printed ≡ said n)

  IsRound-Alternates : (g : Game) → IsRound n child_pid pid g → Alternates g
  IsRound-Alternates g (of_child i m false e h out) = (
    (i, omega arith, inl out),
    λ c p.
        let none_left : m ≡ 0 = Active-finished h.active c in
        let all : i ≡ n = omega arith in out ∙ ap said all,
  )
  IsRound-Alternates g (of_child i m true e h out) =
      let some_left = Active-printed h.active in
      (
        (i, omega arith, inr (out, omega arith)),
        λ c p. let none_left : m ≡ 0 = Active-finished h.active c in absurd (omega arith),
      )
  IsRound-Alternates g (of_parent i m false e h out) = (
    (i, omega arith, inr (out, omega arith)),
    λ c p. let none_left : suc m ≡ 0 = Active-finished h.active p in absurd (omega arith),
  )
  IsRound-Alternates g (of_parent i m true e h out) = (
    (suc i, omega arith, inl out),
    λ c p. let none_left : suc m ≡ 0 = Active-finished h.active p in absurd (omega arith),
  )

  -- A parent whose greater semaphore id is below 260 and its child, another process, begin with both of their semaphores unused. Then
  -- the two calls of sem_open succeed, and after any number of moves of the two in any order, the output
  -- is some rounds of a ping and a pong each, at most n of them, or a ping after fewer than n rounds; and
  -- when both have left their loops, it is n rounds. There is always a way on in which both leave their loops.
  pub play-Alternates :
      (k : Kernel)
      → (k.sem_array (ping_of pid)).is_use ≡ false
      → (k.sem_array (pong_of pid)).is_use ≡ false
      → k.proc child_pid ≡ user
      → k.proc pid ≡ user
      → (g : Game) × ((start pid n k).1 ≡ some g)
        × ((schedule : List Bool)
            → Alternates (play child_pid pid schedule g)
              × CanFinish n child_pid pid valid apart (play child_pid pid schedule g))
  play-Alternates k ping_free pong_free child_user pid_user =
      let (g, run, round) =
        start-IsRound n child_pid pid valid apart k ping_free pong_free child_user pid_user in
      (
        g,
        run,
        λ schedule.
            let later = play-IsRound n child_pid pid valid apart schedule g round in
            (
              IsRound-Alternates (play child_pid pid schedule g) later,
              IsRound-CanFinish n child_pid pid valid apart (play child_pid pid schedule g) later,
            ),
      )
