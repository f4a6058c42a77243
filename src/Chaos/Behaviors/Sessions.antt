-- ===== src/Chaos/Behaviors/Sessions.antt =====
-- Loops and held connections keep the count of connections.
use nim_vortex.Prelude.{ℕ, zero, suc, ◌+◌, ◌≡◌, Bool, true, false, ◌∷◌, length, arith}
use nim_vortex.Chaos.Behaviors.{
  Door, Deed, opens, ends, Reply, World, Ended, ok, fails, cancelled, M, then_run, ◌>>=◌, ◌>>◌,
  skip, take_reply, replied, call, next, look_up, swallow_end, swallow, swallow_all_end,
  swallow_all, ended_as, after, finally, opened, enter, leave, abandon, held, in_session, is_over,
  each_chunk_from, each_chunk, repeat, found, is_there, if_there, when,
}
use nim_vortex.Chaos.Behaviors.Leaves.{
  opened_in, ended_in, left_in, Kept, Keeps, Kept-then, Kept-and, if-Keeps, Kept-weaken,
  take_reply-Kept, bind-Keeps, pure-Keeps, call-Keeps, act-Keeps,
}

swallow_end-Kept :
    (e k : ℕ) (v : World) (r : World × Ended (Unit {0}))
    → Kept e k v r.0
    → Kept e k v (swallow_end r).0
unfolding swallow_end
swallow_end-Kept e k v (w, ok u) p = p
swallow_end-Kept e k v (w, fails) p = p
swallow_end-Kept e k v (w, cancelled) p = p

pub swallow-Keeps : {e k : ℕ} {m : M (Unit {0})} → Keeps e k m → Keeps e k (swallow m)
unfolding swallow
swallow-Keeps {e} {k} {m} p = record { keeps = λ w. swallow_end-Kept e k w (m w) (p.keeps w) }

swallow_all_end-Kept :
    (e k : ℕ) (v : World) (r : World × Ended (Unit {0}))
    → Kept e k v r.0
    → Kept e k v (swallow_all_end r).0
unfolding swallow_all_end
swallow_all_end-Kept e k v (w, ok u) p = p
swallow_all_end-Kept e k v (w, fails) p = p
swallow_all_end-Kept e k v (w, cancelled) p = p

pub swallow_all-Keeps : {e k : ℕ} {m : M (Unit {0})} → Keeps e k m → Keeps e k (swallow_all m)
unfolding swallow_all
swallow_all-Keeps {e} {k} {m} p = record {
  keeps = λ w. swallow_all_end-Kept e k w (m w) (p.keeps w);
}

ended_as-Kept :
    {A : Type 0} (e k : ℕ) (v : World) (o : Ended A) (r : World × Ended (Unit {0}))
    → Kept e k v r.0
    → Kept e k v (ended_as o r).0
unfolding ended_as
ended_as-Kept e k v o (w, ok u) p = p
ended_as-Kept e k v o (w, fails) p = p
ended_as-Kept e k v o (w, cancelled) p = p

pub after-Kept :
    {A : Type 0} (e k : ℕ) (v : World) (r : World × Ended A) (cleanup : M (Unit {0}))
    → Kept 0 0 v r.0
    → Keeps e k cleanup
    → Kept e k v (after r cleanup).0
unfolding after
after-Kept e k v (w, o) cleanup p q =
    Kept-then e k v w (ended_as o (cleanup w)).0 p (ended_as-Kept e k w o (cleanup w) (q.keeps w))

pub finally-Keeps :
    {e k : ℕ} {quit body : M (Unit {0})}
    → Keeps e k quit
    → Keeps 0 0 body
    → Keeps e k (finally quit body)
unfolding finally
finally-Keeps {e} {k} {quit} {body} q p = record {
  keeps = λ w. after-Kept e k w (body w) quit (p.keeps w) q;
}

opening-Kept :
    (k : ℕ) (door : Door) (v w : World)
    → Kept 1 k (record v { connects = suc v.connects; trace = opens door ∷ v.trace }) w
    → Kept 0 k v w
unfolding opened_in ended_in left_in
opening-Kept k door v w h =
    let b : w.connects ≡ suc v.connects + h.made = h.counted in
    let c : opened_in w.trace ≡ suc (opened_in v.trace) + h.made = h.opening in
    let d : ended_in w.trace + h.left ≡ ended_in v.trace + (h.made + 1) = h.ending in
    record {
      made = suc h.made;
      left = h.left;
      few = h.few;
      counted = omega arith;
      opening = omega arith;
      ending = omega arith;
      leaving = h.leaving;
    }

-- What is done with a connection that has been opened ends it or leaves it open.
pub then_opened-Kept :
    (k : ℕ) (v : World) (door : Door) (r : World × Ended Reply) (rest : M (Unit {0}))
    → Kept 0 0 v r.0
    → Keeps 1 k rest
    → Kept 0 k v (then_run (opened door r) (λ u. rest)).0
unfolding opened then_run
then_opened-Kept k v door (w, fails) rest p q = Kept-weaken 0 0 k v w (omega arith) p
then_opened-Kept k v door (w, cancelled) rest p q = Kept-weaken 0 0 k v w (omega arith) p
then_opened-Kept k v door (w, ok r) rest p q =
    let w' : World = record w { connects = suc w.connects; trace = opens door ∷ w.trace } in
    Kept-then 0 k v w (rest w').0 p (opening-Kept k door w (rest w').0 (q.keeps w'))

pub enter-Keeps :
    {k : ℕ} {rest : M (Unit {0})} (door : Door) → Keeps 1 k rest → Keeps 0 k (enter door >> rest)
unfolding ◌>>=◌ enter
enter-Keeps {k} {rest} door q = record {
  keeps =
      λ w. then_opened-Kept k w door (take_reply w.replies w) rest (take_reply-Kept w.replies w) q;
}

pub held-Keeps :
    {k : ℕ} {quit body : M (Unit {0})} (door : Door)
    → Keeps 1 k quit
    → Keeps 0 0 body
    → Keeps 0 k (held door quit body)
unfolding held
held-Keeps door q p = enter-Keeps door (finally-Keeps q p)

replied-Keeps : Keeps 0 0 replied
unfolding replied
replied-Keeps = record { keeps = λ w. take_reply-Kept w.replies w }

-- The end of a connection is logged first.
ended-Kept : (k : ℕ) (w : World) → Kept 1 k w (record w { trace = ends ∷ w.trace })
unfolding opened_in ended_in left_in
ended-Kept k w = record {
  made = 0;
  left = 0;
  few = omega arith;
  counted = omega arith;
  opening = omega arith;
  ending = omega arith;
  leaving = omega arith;
}

pub leave-Keeps : {k : ℕ} → Keeps 1 k leave
unfolding leave
leave-Keeps {k} =
    let rest : Keeps 0 0 (replied >>= λ r. skip) = bind-Keeps replied-Keeps (λ r. pure-Keeps tt) in
    record {
      keeps = λ w.
          let w' : World = record w { trace = ends ∷ w.trace } in
          Kept-and 1 k w w' (leave w).0 (ended-Kept k w) (rest.keeps w');
    }

pub abandon-Keeps : Keeps 1 1 abandon
unfolding abandon opened_in ended_in left_in
abandon-Keeps = record {
  keeps = λ w. record {
    made = 0;
    left = 1;
    few = omega arith;
    counted = omega arith;
    opening = omega arith;
    ending = omega arith;
    leaving = omega arith;
  };
}

pub in_session-Keeps :
    {body : M (Unit {0})} (door : Door) → Keeps 0 0 body → Keeps 0 0 (in_session door body)
unfolding in_session
in_session-Keeps door p = held-Keeps door leave-Keeps p

-- The loops.
pub each_chunk_from-Keeps :
    (fuel got : ℕ) (body : ℕ → M Bool)
    → ((n : ℕ) → Keeps 0 0 (body n))
    → Keeps 0 0 (each_chunk_from fuel got body)
unfolding each_chunk_from
each_chunk_from-Keeps zero got body p = act-Keeps next
each_chunk_from-Keeps (suc fuel) got body p = bind-Keeps (call-Keeps next) (λ r.
    if-Keeps (is_over r.kind) (pure-Keeps tt) (
      bind-Keeps (p (suc got))
        (λ more. if-Keeps more (each_chunk_from-Keeps fuel (suc got) body p) (pure-Keeps tt))))

pub each_chunk-Keeps :
    {body : ℕ → M Bool} → ((n : ℕ) → Keeps 0 0 (body n)) → Keeps 0 0 (each_chunk body)
unfolding each_chunk
each_chunk-Keeps {body} p = record {
  keeps = λ w. (each_chunk_from-Keeps (length w.replies) 0 body p).keeps w;
}

pub repeat-Keeps :
    {body : ℕ → M (Unit {0})} (n i : ℕ)
    → ((k : ℕ) → Keeps 0 0 (body k))
    → Keeps 0 0 (repeat n i body)
unfolding repeat
repeat-Keeps zero i p = pure-Keeps tt
repeat-Keeps (suc n) i p = bind-Keeps (p i) (λ u. repeat-Keeps n (suc i) p)

found-Kept : (v : World) (r : World × Ended Reply) → Kept 0 0 v r.0 → Kept 0 0 v (found r).0
unfolding found
found-Kept v (w, ok r) p = p
found-Kept v (w, fails) p = p
found-Kept v (w, cancelled) p = p

pub is_there-Keeps : Keeps 0 0 is_there
unfolding is_there
is_there-Keeps = record {
  keeps = λ w. found-Kept w (call look_up w) ((call-Keeps look_up).keeps w);
}

pub if_there-Keeps : (d : Deed) → Keeps 0 0 (if_there d)
unfolding if_there
if_there-Keeps d = bind-Keeps is_there-Keeps (λ there. if-Keeps there (act-Keeps d) (pure-Keeps tt))

pub when-Keeps : {m : M (Unit {0})} (b : Bool) → Keeps 0 0 m → Keeps 0 0 (when b m)
unfolding when
when-Keeps true p = p
when-Keeps false p = pure-Keeps tt
