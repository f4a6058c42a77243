-- ===== src/Chaos/Behaviors/Tests.antt =====
-- Runs of the behaviours.
use nim_vortex.Prelude.{ℕ, ◌≡◌, refl, true, false, List, [], ◌∷◌, ◌++◌}
use nim_vortex.Prelude.Bytes.{codes, equal}
use nim_vortex.Chaos.{Key, generic, Tally, equal_key, worker_round, bump_key}
use nim_vortex.Chaos.Behaviors.{
  session, opens, ends, does, stream_open, take_item, head, chunk, over, Reply, World, fails,
  then_run, ◌>>=◌, pure, answer, take_reply, call, act, now, wait, take_roll, roll, between, chance,
  doze, ended_as, after, finally, opened, enter, replied, leave, abandon, held, in_session, is_over,
  each_chunk_from, each_chunk, Cell, found, is_there, when,
}
use nim_vortex.Chaos.Behaviors.Generic.{abort, take_chunks}
use nim_vortex.Chaos.Behaviors.Vanish.{stream_away, unless_lost, vanish_h2, vanish_at, vanish}
use nim_vortex.Chaos.Behaviors.Targeted.{table}
use nim_vortex.Chaos.Behaviors.Leaves.{Kept, left_in}
use nim_vortex.Chaos.Behaviors.Worker.{run_key, tallied, chosen, round, rounds, worker}
use nim_vortex.Chaos.Behaviors.Worker.Closes.{allowed, worker-Kept}

abbrev good : Reply
good = record { raises = false; kind = head; there = false; took = 0 }

abbrev a_chunk : Reply
a_chunk = record good { kind = chunk }

abbrev the_end : Reply
the_end = record good { kind = over; took = 100 }

abbrev reset : Reply
reset = record good { raises = true }

abbrev over_h3 : Cell
over_h3 = record { is_h3 = true; is_http = false; host = codes "server"; port = codes "443" }

abbrev over_h2 : Cell
over_h2 = record over_h3 { is_h3 = false }

abbrev begin : List Reply → List ℕ → World
begin replies rolls = record {
  replies = replies;
  rolls = rolls;
  clock = 0;
  connects = 0;
  trace = [];
}

-- Two chunks are wanted, and the peer resets the stream behind the first: the session is ended all the same.
aborted :
    abort over_h3 (begin (good ∷ good ∷ good ∷ a_chunk ∷ reset ∷ good ∷ []) (250 ∷ 1 ∷ [])) ≡ (
      record {
        replies = [];
        rolls = [];
        clock = 0;
        connects = 1;
        trace =
            ends
            ∷ does take_item
            ∷ does take_item
            ∷ does take_item
            ∷ does (stream_open (codes "/download") [])
            ∷ opens session
            ∷ [];
      },
      fails,
    )
unfolding abort chance roll take_roll ◌>>=◌ then_run pure between in_session held enter opened
    take_reply answer act call finally after ended_as leave replied take_chunks
aborted = refl

abbrev vanishing : List Reply
vanishing = good ∷ good ∷ the_end ∷ good ∷ good ∷ []

abbrev two_rounds : World
two_rounds = begin (vanishing ++ vanishing) (0 ∷ 999 ∷ 0 ∷ 0 ∷ 999 ∷ 0 ∷ [])

abbrev only_vanish : List Key
only_vanish = (codes "vanish", generic) ∷ []

abbrev no_tally : Tally
no_tally = record { ok = []; err = [] }

worker-Kept_example :
    Kept 0 (allowed false 10) two_rounds (worker over_h2 only_vanish 200 no_tally two_rounds).0
worker-Kept_example = worker-Kept over_h2 only_vanish 200 no_tally two_rounds

-- One worker leaves more than one client open where no socket is found.
left_twice : left_in (worker over_h2 only_vanish 200 no_tally two_rounds).0.trace ≡ 2
unfolding left_in worker rounds now round chosen run_key table equal_key equal tallied worker_round
    bump_key vanish vanish_at vanish_h2 stream_away unless_lost abandon chance roll take_roll ◌>>=◌
    then_run pure between enter opened take_reply answer act call each_chunk each_chunk_from is_over
    when is_there found doze wait
left_twice = refl
