-- ===== src/Semtech/FetchTests.antt =====
-- The loop of `semtech_push_up` at a list of two entries.
use dragino_fwd_src_lps8_mqt.Base.{ℕ, ◌≡◌, refl, true, false, [], ◌∷◌, ◌==◌, arith}
use dragino_fwd_src_lps8_mqt.Forward.{RxPktsList, new_entry}
use dragino_fwd_src_lps8_mqt.Forward.Pending.{pending}
use dragino_fwd_src_lps8_mqt.Semtech.Fetch.{Turns, jobs_of, Drains, semtech_push_up-Drains}

abbrev two_batches : RxPktsList ℕ
two_batches = record {
  entries = new_entry 1000 2 (5 ∷ 6 ∷ []) ∷ new_entry 2000 2 (7 ∷ []) ∷ [];
  size = 2;
}

-- A report is ready at the end.
abbrev free_turns : Turns ℕ
free_turns = record {
  report_ready = (λ n. n == 0);
  stop_sig = (λ n. false);
  creates = (λ n. true);
  memory = (λ n. 0 ∷ 0 ∷ 0 ∷ []);
}

fetched_jobs :
    jobs_of free_turns (pending 1 two_batches.entries)
    ≡ (2, 5 ∷ 6 ∷ 0 ∷ []) ∷ (1, 7 ∷ 0 ∷ 0 ∷ []) ∷ (0, 0 ∷ 0 ∷ 0 ∷ []) ∷ []
unfolding jobs_of pending new_entry
fetched_jobs = refl

semtech_push_up-Drains_example : Drains 1 free_turns two_batches (pending 1 two_batches.entries)
unfolding pending new_entry
semtech_push_up-Drains_example =
    semtech_push_up-Drains 1 free_turns two_batches (omega arith) (λ n. refl) (λ n. refl)
      (refl, (refl, tt)) (omega arith, (omega arith, tt)) (omega arith)
