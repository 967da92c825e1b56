-- ===== src/Queues/Tests.antt =====
-- A ring of messages that goes round the end of its array.
use wine_glass.Base.{
  ℕ, ◌≡◌, refl, Option, none, some, List, [], ◌∷◌, ◌++◌, ltb, if◌then◌else◌, replicate, set, arith,
}
use wine_glass.Queues.{Ring, ThreadMsg, push, tmsg_pop, pop_from, shift_down}
use wine_glass.Queues.Holding.{IsQueue, push-IsQueue}
use wine_glass.Queues.Refine.{remove_first, tmsg_pop-IsQueue}

abbrev message : ℕ → ℕ → ThreadMsg
message tid msg = record { tid = tid; msg = msg; wparam = 0; lparam = 0 }

abbrev three : List ThreadMsg
three = message 1 10 ∷ message 2 20 ∷ message 1 30 ∷ []

abbrev ring : Ring ThreadMsg
ring = record {
  slots =
      set (set (set (replicate 64 (message 0 0)) 62 (message 1 10)) 63 (message 2 20)) 0
        (message 1 30);
  head = 62;
  tail = 1;
}

ring-IsQueue : IsQueue ring three
ring-IsQueue = record {
  full = refl;
  head_fits = omega arith;
  tail_there = refl;
  short = omega arith;
  held = (refl, (refl, (refl, tt)));
}

push-IsQueue_example :
    IsQueue (push ring (message 3 40)) (if ltb 3 63 then three ++ message 3 40 ∷ [] else three)
push-IsQueue_example = push-IsQueue ring three (message 3 40) ring-IsQueue

-- The message in the middle is taken, and the one behind it moves down around the end.
tmsg_pop-IsQueue_example :
    (r' : Ring ThreadMsg) × (tmsg_pop ring 2 ≡ some (r', (remove_first 2 three).1))
    × IsQueue r' (remove_first 2 three).0
tmsg_pop-IsQueue_example = tmsg_pop-IsQueue 2 ring three ring-IsQueue

abbrev answer_of : Option (Ring ThreadMsg × Option ThreadMsg) → Option ThreadMsg
answer_of none = none
answer_of (some (r, m)) = m

tmsg_pop_second : answer_of (tmsg_pop ring 2) ≡ some (message 2 20)
unfolding tmsg_pop pop_from shift_down
tmsg_pop_second = refl

tmsg_pop_missing : answer_of (tmsg_pop ring 7) ≡ none
unfolding tmsg_pop pop_from shift_down
tmsg_pop_missing = refl
