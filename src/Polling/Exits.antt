-- ===== src/Polling/Exits.antt =====
-- When a polled container counts as exited.
use nosana_node.Base.{ℕ, suc, ◌≡◌, refl, Bool, true, false, ◌||◌, List, [], ◌∷◌, leb, or_split, ap}
use nosana_node.Polling.{
  Monitor, Inspected, up, down, thrown, is_exited, on_tick, on_inspected, poll, poll_all,
  begin_restart, is_over, count_check,
}

abbrev pub is_failure : Inspected → Bool
is_failure (up is_running) = false
is_failure _ = true

-- The end of a sequence of polls that found the container up in none: how long it is, where
-- `before` such polls came before the sequence.
abbrev pub failures : ℕ → List Inspected → ℕ
failures before [] = before
failures before (up is_running ∷ is) = failures 0 is
failures before (_ ∷ is) = failures (suc before) is

-- Whether some three polls in a row did not find the container up.
abbrev pub three_fail : ℕ → List Inspected → Bool
three_fail before [] = false
three_fail before (up is_running ∷ is) = three_fail 0 is
three_fail before (_ ∷ is) = leb 3 (suc before) || three_fail (suc before) is

-- Polls that are neither aborted nor held off by a restart.
abbrev pub IsPolled : Monitor → Type 0
IsPolled m =
    (m.polling ≡ true)
    × (m.aborted ≡ false)
    × (m.is_restarting ≡ false)
    × (is_exited m.state ≡ false)

poll-eq : (i : Inspected) (m : Monitor) → IsPolled m → poll i m ≡ on_inspected i m
unfolding poll on_tick
poll-eq i m (polling, aborted, held, alive) = rw (polling, aborted, held)

poll_all-eq :
    (i : Inspected) (is : List Inspected) (m : Monitor)
    → IsPolled m
    → poll_all (i ∷ is) m ≡ poll_all is (on_inspected i m)
unfolding poll_all
poll_all-eq i is m p = ap (poll_all is) (poll-eq i m p)

nothing_polled : (m : Monitor) → poll_all [] m ≡ m
unfolding poll_all
nothing_polled m = refl

on_inspected-few :
    (i : Inspected) (m : Monitor)
    → is_failure i ≡ true
    → leb 3 (suc m.exited_check_count) ≡ false
    → on_inspected i m ≡ count_check m
unfolding on_inspected
on_inspected-few (up b) m f h = cc
on_inspected-few down m f h = rw h
on_inspected-few thrown m f h = rw h

-- While the container is polled and not restarted, its state never becomes `exited` unless three
-- polls in a row did not find it up, and the count is that of the last polls that did not.
pub poll_all-exited :
    (is : List Inspected) (m : Monitor)
    → IsPolled m
    → three_fail m.exited_check_count is ≡ false
    → (is_exited (poll_all is m).state ≡ false)
      × ((poll_all is m).exited_check_count ≡ failures m.exited_check_count is)
unfolding on_inspected is_exited
poll_all-exited [] m p h = rw (nothing_polled m) (p.3, refl)
poll_all-exited (up true ∷ is) m p h =
    rw (poll_all-eq (up true) is m p)
      (poll_all-exited is (on_inspected (up true) m) (p.0, p.1, p.2, refl) h)
poll_all-exited (up false ∷ is) m p h =
    rw (poll_all-eq (up false) is m p)
      (poll_all-exited is (on_inspected (up false) m) (p.0, p.1, p.2, refl) h)
poll_all-exited (down ∷ is) m p h =
    let (few, later) =
      or_split (leb 3 (suc m.exited_check_count)) (three_fail (suc m.exited_check_count) is) h in
    rw (poll_all-eq down is m p, on_inspected-few down m refl few)
      (poll_all-exited is (count_check m) p later)
poll_all-exited (thrown ∷ is) m p h =
    let (few, later) =
      or_split (leb 3 (suc m.exited_check_count)) (three_fail (suc m.exited_check_count) is) h in
    rw (poll_all-eq thrown is m p, on_inspected-few thrown m refl few)
      (poll_all-exited is (count_check m) p later)

-- A poll that is waiting when the third check is due, while the container is being restarted,
-- makes the container count as exited in the middle of the restart.
pub begin_restart-exited :
    (m : Monitor)
    → m.aborted ≡ false
    → is_exited m.state ≡ false
    → m.exited_check_count ≡ 2
    → let (begun, held) = begin_restart m in
      (begun ≡ true) × (held.is_restarting ≡ true) × (is_over (on_inspected down held) ≡ true)
unfolding begin_restart on_inspected is_over is_exited
begin_restart-exited m a s c = rw (a, s, c) (refl, refl, refl)
