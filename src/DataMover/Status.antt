-- ===== src/DataMover/Status.antt =====
-- Status requests to the data mover core (sw/snRuntime/src/dm.h).
use snax_rebase.Base.{◌≡◌, ◌↔◌, refl, sym, subst, Bool, true, false, List, [], ◌∷◌, arith}
use snax_rebase.DataMover.{
  DataMover, Stat, no_request, wait_idle, exit, ready, issue, serve, main_round, request,
}

-- Rounds of `dm_main`, one for each report of the engine's busy flag.
unfoldable pub after_rounds : List Bool → DataMover → DataMover
after_rounds [] d = d
after_rounds (busy ∷ bs) d = after_rounds bs (main_round busy d).state

-- What a request says: still asked and not answered, or answered.
abbrev pub IsOpen : Stat → DataMover → Type 0
IsOpen q d = (d.stat_q ≡ q) × (d.stat_pvalid ≡ 0)

abbrev pub IsAnswered : DataMover → Type 0
IsAnswered d = (d.stat_q ≡ no_request) × (d.stat_pvalid ≡ 1)

abbrev pub AllBusy : List Bool → Type 0
AllBusy [] = Unit
AllBusy (b ∷ bs) = (b ≡ true) × AllBusy bs

issue_stat :
    (d : DataMover) → ((issue d).1.stat_q ≡ d.stat_q) × ((issue d).1.stat_pvalid ≡ d.stat_pvalid)
unfolding issue
issue_stat d = ground arith

wait_busy : (d : DataMover) → IsOpen wait_idle d → IsOpen wait_idle (main_round true d).state
unfolding main_round serve
wait_busy d h = ground (arith, issue_stat d)

wait_idle-IsAnswered : (d : DataMover) → IsOpen wait_idle d → IsAnswered (main_round false d).state
unfolding main_round serve
wait_idle-IsAnswered d h = ground (arith, issue_stat d)

-- The request of `dm_wait` stays open, whatever the queue holds, as long as the engine reports that
-- it is busy, and the first round in which the engine is idle answers it.
pub wait-IsAnswered_first_idle :
    (bs : List Bool) (d : DataMover)
    → AllBusy bs
    → let asked = request wait_idle d in
      IsOpen wait_idle (after_rounds bs asked)
      × IsAnswered (main_round false (after_rounds bs asked)).state
unfolding request after_rounds
wait-IsAnswered_first_idle bs d h =
    let o = stays bs (record d { stat_pvalid = 0; stat_q = wait_idle }) h (refl, refl) in
    (o, wait_idle-IsAnswered _ o)
  where
    stays :
        (bs : List Bool) (d : DataMover)
        → AllBusy bs
        → IsOpen wait_idle d
        → IsOpen wait_idle (after_rounds bs d)
    stays [] d h o = o
    stays (b ∷ bs) d h o =
        stays bs (main_round b d).state h.1
          (subst (λ x. IsOpen wait_idle (main_round x d).state) (sym h.0) (wait_busy d o))

-- The request of `dm_wait_ready` is answered by the next round, and a request to exit ends the loop
-- in the round that sees it and in no round without it.
pub ready_and_exit :
    (busy : Bool) (d : DataMover)
    → IsAnswered (main_round busy (request ready d)).state
      × ((main_round busy d).do_exit ≡ true ↔ d.stat_q ≡ exit)
unfolding request main_round serve
ready_and_exit busy d =
    let asked = record d { stat_pvalid = 0; stat_q = ready } in
    (ground (arith, issue_stat asked), ground (arith, issue_stat d))
