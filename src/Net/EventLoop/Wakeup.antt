-- ===== src/Net/EventLoop/Wakeup.antt =====
-- The queue and the event descriptor of mytinyhttpd/net/event_loop.cc under every interleaving.
use my_tiny_httpd.Prelude.{
  ℕ, zero, suc, ◌+◌, ◌<◌, ◌≡◌, refl, sym, ap, ◌∙◌, subst, Bool, true, false, inl, inr, List, [],
  ◌∷◌, ◌++◌, append-nil, append_assoc, arith, Bool-cases,
}
use my_tiny_httpd.Net.EventLoop.{
  Functor, Actions, done, queue_in_loop, run_in_loop, quit, Handler, handle_wakeup, handle_event,
  Phase, starting, testing, polling, handling, calling, ended, EventLoop, new_loop, push_functor,
  wakeup, queue_here, act, join, body, functor, begin_loop, next_handler, next_functor, is_done,
  test_quit, poll, loop_step, Event, step, queue_there, quit_there, wakeup_there, pay, on_event,
  on_events,
}

-- The callback does not queue a functor, nor do those that it runs.
abbrev mutual
  pub QuietFunctor : Functor → Type 0
  QuietFunctor (functor n actions) = Quiet actions

  pub Quiet : Actions → Type 0
  Quiet done = Unit {0}
  Quiet (queue_in_loop f rest) = ⊥
  Quiet (run_in_loop f rest) = QuietFunctor f × Quiet rest
  Quiet (quit rest) = Quiet rest

-- Functors that wait have been announced, by a write that has been made or is still to be made.
abbrev pub Due : List Functor → ℕ → Type 0
Due [] n = Unit {0}
Due (f ∷ fs) n = 0 < n

-- So has the wish to quit.
abbrev pub QuitDue : Bool → ℕ → Type 0
QuitDue true n = 0 < n
QuitDue false n = Unit {0}

-- What is announced where the loop may sleep: in its poll.
abbrev pub Awake : Phase → EventLoop → Type 0
Awake polling l =
    Due l.pending_functors (l.wakeups + l.owed) × QuitDue l.is_quit (l.wakeups + l.owed)
Awake _ l = Unit {0}

-- The functors called, those taken out of the queue and those in it, in order.
abbrev pub Ordered : EventLoop → Type 0
Ordered l = l.called ++ (l.functors ++ l.pending_functors) ≡ l.queued

abbrev Alert : Phase → EventLoop → Type 0
Alert starting l =
    (l.functors ≡ [])
    × (l.is_calling_pending_functors ≡ false)
    × Due l.pending_functors (l.wakeups + l.owed)
    × Quiet l.running
Alert testing l =
    (l.functors ≡ [])
    × (l.is_calling_pending_functors ≡ false)
    × Due l.pending_functors (l.wakeups + l.owed)
Alert polling l =
    (l.functors ≡ [])
    × (l.is_calling_pending_functors ≡ false)
    × Due l.pending_functors (l.wakeups + l.owed)
    × QuitDue l.is_quit (l.wakeups + l.owed)
Alert handling l = (l.functors ≡ []) × (l.is_calling_pending_functors ≡ false)
Alert calling l =
    (l.is_calling_pending_functors ≡ true) × Due l.pending_functors (l.wakeups + l.owed)
Alert ended l = Unit {0}

record Inv (p : Phase) (l : EventLoop) : Type 0 where
  ordered : Ordered l
  alert : Alert p l

Due-pos : (fs : List Functor) (n : ℕ) → 0 < n → Due fs n
Due-pos [] n h = tt
Due-pos (f ∷ fs) n h = h

QuitDue-pos : (b : Bool) (n : ℕ) → 0 < n → QuitDue b n
QuitDue-pos true n h = h
QuitDue-pos false n h = tt

pushed :
    (c fs p q : List Functor) (f : Functor)
    → c ++ (fs ++ p) ≡ q
    → c ++ (fs ++ (p ++ (f ∷ []))) ≡ q ++ (f ∷ [])
pushed c fs p q f h = simp (← append_assoc) (ap (λ l. l ++ (f ∷ [])) (append_assoc c fs p ∙ h))

-- More announcements, as other threads make them.
more :
    (p : Phase) (l l' : EventLoop)
    → l'.functors ≡ l.functors
    → l'.is_calling_pending_functors ≡ l.is_calling_pending_functors
    → l'.running ≡ l.running
    → 0 < l'.wakeups + l'.owed
    → Alert p l
    → Alert p l'
more starting l l' e c r h (a, b, d, q) =
    (e ∙ a, c ∙ b, Due-pos l'.pending_functors _ h, subst Quiet (sym r) q)
more testing l l' e c r h (a, b, d) = (e ∙ a, c ∙ b, Due-pos l'.pending_functors _ h)
more polling l l' e c r h (a, b, d, q) =
    (e ∙ a, c ∙ b, Due-pos l'.pending_functors _ h, QuitDue-pos l'.is_quit _ h)
more handling l l' e c r h (a, b) = (e ∙ a, c ∙ b)
more calling l l' e c r h (b, d) = (c ∙ b, Due-pos l'.pending_functors _ h)
more ended l l' e c r h a = tt

queue_there-Inv :
    (p : Phase) (l : EventLoop) (f : Functor)
    → Inv p l
    → Inv p (record (push_functor f l) { owed = suc l.owed })
queue_there-Inv p l f v = record {
  ordered = pushed l.called l.functors l.pending_functors l.queued f v.ordered;
  alert =
      more p l (record (push_functor f l) { owed = suc l.owed }) refl refl refl (omega arith)
        v.alert;
}

pay-Inv : (p : Phase) (n : ℕ) (l : EventLoop) → l.owed ≡ n → Inv p l → Inv p (pay n l)
unfolding pay
pay-Inv p zero l e v = v
pay-Inv p (suc n) l e v = record {
  ordered = v.ordered;
  alert = more p l (record (wakeup l) { owed = n }) refl refl refl (omega arith) v.alert;
}

pay-phase : (n : ℕ) (l : EventLoop) → (pay n l).phase ≡ l.phase
unfolding pay
pay-phase zero l = refl
pay-phase (suc n) l = refl

-- `QueueInLoop` in the thread of the loop, while channels are handled and while functors are called.
queue_here-handling :
    (f : Functor) (l : EventLoop)
    → Inv handling l
    → Inv handling (queue_here f l) × ((queue_here f l).phase ≡ l.phase)
unfolding queue_here
queue_here-handling f l v = rw v.alert.1 (
  record {
    ordered = pushed l.called l.functors l.pending_functors l.queued f v.ordered;
    alert = (v.alert.0, refl);
  },
  refl,
)

queue_here-calling :
    (f : Functor) (l : EventLoop)
    → Inv calling l
    → Inv calling (queue_here f l) × ((queue_here f l).phase ≡ l.phase)
unfolding queue_here
queue_here-calling f l v = rw v.alert.0 (
  record {
    ordered = pushed l.called l.functors l.pending_functors l.queued f v.ordered;
    alert = (refl, Due-pos (l.pending_functors ++ (f ∷ [])) _ (omega arith));
  },
  refl,
)

act-handling :
    (a : Actions) (l : EventLoop)
    → Inv handling l
    → Inv handling (act a l) × ((act a l).phase ≡ l.phase)
unfolding act
act-handling done l v = (v, refl)
act-handling (queue_in_loop f rest) l v =
    queue_here-handling f (record l { running = rest })
      (record { ordered = v.ordered; alert = v.alert })
act-handling (run_in_loop f rest) l v = (record { ordered = v.ordered; alert = v.alert }, refl)
act-handling (quit rest) l v = (record { ordered = v.ordered; alert = v.alert }, refl)

join-Quiet : (a rest : Actions) → Quiet a → Quiet rest → Quiet (join a rest)
unfolding join
join-Quiet done rest q r = r
join-Quiet (queue_in_loop f a) rest q r = absurd q
join-Quiet (run_in_loop f a) rest q r = (q.0, join-Quiet a rest q.1 r)
join-Quiet (quit a) rest q r = join-Quiet a rest q r

body-Quiet : (f : Functor) → QuietFunctor f → Quiet (body f)
body-Quiet (functor n actions) q = q

-- What the thread does before it enters `Loop`.
act-starting :
    (a : Actions) (l : EventLoop)
    → l.running ≡ a
    → Inv starting l
    → Inv starting (act a l) × ((act a l).phase ≡ l.phase)
unfolding act
act-starting done l e v = (v, refl)
act-starting (queue_in_loop f rest) l e v = absurd (subst Quiet e v.alert.3)
act-starting (run_in_loop f rest) l e v =
    let q = subst Quiet e v.alert.3 in
    (
      record {
        ordered = v.ordered;
        alert = (v.alert.0, v.alert.1, v.alert.2, join-Quiet (body f) rest (body-Quiet f q.0) q.1);
      },
      refl,
    )
act-starting (quit rest) l e v = (
  record {
    ordered = v.ordered;
    alert = (v.alert.0, v.alert.1, v.alert.2, subst Quiet e v.alert.3);
  },
  refl,
)

act-calling :
    (a : Actions) (l : EventLoop)
    → Inv calling l
    → Inv calling (act a l) × ((act a l).phase ≡ l.phase)
unfolding act
act-calling done l v = (v, refl)
act-calling (queue_in_loop f rest) l v =
    queue_here-calling f (record l { running = rest })
      (record { ordered = v.ordered; alert = v.alert })
act-calling (run_in_loop f rest) l v = (record { ordered = v.ordered; alert = v.alert }, refl)
act-calling (quit rest) l v = (record { ordered = v.ordered; alert = v.alert }, refl)

-- The invariant in the phase that the loop is in.
abbrev Holds : EventLoop → Type 0
Holds l = Inv l.phase l

in_phase : (p : Phase) (l : EventLoop) → l.phase ≡ p → Inv p l → Holds l
in_phase p l e v = subst (λ q. Inv q l) (sym e) v

next_handler-Holds :
    (hs : List Handler) (l : EventLoop)
    → l.phase ≡ handling
    → Inv handling l
    → Holds (next_handler hs l)
unfolding next_handler
next_handler-Holds (handle_wakeup ∷ hs) l e v =
    in_phase handling _ e (record { ordered = v.ordered; alert = v.alert })
next_handler-Holds (handle_event a ∷ hs) l e v =
    in_phase handling _ e (record { ordered = v.ordered; alert = v.alert })
next_handler-Holds [] l e v = record {
  ordered =
      ap (λ fs. l.called ++ fs) (append-nil l.pending_functors)
      ∙ ap (λ fs. l.called ++ (fs ++ l.pending_functors)) (sym v.alert.0)
      ∙ v.ordered;
  alert = (refl, tt);
}

next_functor-Holds :
    (fs : List Functor) (l : EventLoop)
    → l.phase ≡ calling
    → l.functors ≡ fs
    → Inv calling l
    → Holds (next_functor fs l)
unfolding next_functor
next_functor-Holds (f ∷ fs) l e g v = in_phase calling _ e (record {
  ordered =
      append_assoc l.called (f ∷ []) (fs ++ l.pending_functors)
      ∙ ap (λ gs. l.called ++ (gs ++ l.pending_functors)) (sym g)
      ∙ v.ordered;
  alert = v.alert;
})
next_functor-Holds [] l e g v = record { ordered = v.ordered; alert = (g, refl, v.alert.1) }

test_quit-Holds : (l : EventLoop) → Inv testing l → Holds (test_quit l)
unfolding test_quit
test_quit-Holds l v = elim (Bool-cases l.is_quit) [
  | inl e ↦ rw e (record { ordered = v.ordered; alert = tt })
  | inr e ↦ rw e (record { ordered = v.ordered; alert = (v.alert.0, v.alert.1, v.alert.2, tt) })
]

loop_step-Holds :
    (p : Phase) (active : List Handler) (l : EventLoop)
    → l.phase ≡ p
    → Inv p l
    → Holds (loop_step p active l)
unfolding loop_step poll begin_loop
loop_step-Holds starting active l e v = elim (Bool-cases (is_done l.running)) [
  | inl d ↦ rw d (record { ordered = v.ordered; alert = (v.alert.0, v.alert.1, v.alert.2) })
  | inr d ↦ rw d (
      let (w, q) = act-starting l.running l refl v in in_phase starting (act l.running l) (q ∙ e) w)
]
loop_step-Holds testing active l e v = test_quit-Holds l v
loop_step-Holds polling active l e v = record {
  ordered = v.ordered;
  alert = (v.alert.0, v.alert.1);
}
loop_step-Holds handling active l e v = elim (Bool-cases (is_done l.running)) [
  | inl d ↦ rw d (next_handler-Holds l.handlers l e v)
  | inr d ↦
      rw d
        (let (w, q) = act-handling l.running l v in in_phase handling (act l.running l) (q ∙ e) w)
]
loop_step-Holds calling active l e v = elim (Bool-cases (is_done l.running)) [
  | inl d ↦ rw d (next_functor-Holds l.functors l e refl v)
  | inr d ↦
      rw d (let (w, q) = act-calling l.running l v in in_phase calling (act l.running l) (q ∙ e) w)
]
loop_step-Holds ended active l e v = in_phase ended l e v

quit_there-Holds :
    (l : EventLoop) → Holds l → Holds (record l { is_quit = true; owed = suc l.owed })
quit_there-Holds l v = record {
  ordered = v.ordered;
  alert =
      more l.phase l (record l { is_quit = true; owed = suc l.owed }) refl refl refl (omega arith)
        v.alert;
}

on_event-Holds : (e : Event) (l : EventLoop) → Holds l → Holds (on_event e l)
unfolding on_event
on_event-Holds (step active) l v = loop_step-Holds l.phase active l refl v
on_event-Holds (queue_there f) l v = queue_there-Inv l.phase l f v
on_event-Holds quit_there l v = quit_there-Holds l v
on_event-Holds wakeup_there l v =
    in_phase l.phase (pay l.owed l) (pay-phase l.owed l) (pay-Inv l.phase l.owed l refl v)

on_events-Holds : (es : List Event) (l : EventLoop) → Holds l → Holds (on_events es l)
unfolding on_events
on_events-Holds [] l v = v
on_events-Holds (e ∷ es) l v = on_events-Holds es (on_event e l) (on_event-Holds e l v)

Alert-Awake : (p : Phase) (l : EventLoop) → Alert p l → Awake p l
Alert-Awake polling l a = (a.2, a.3)
Alert-Awake starting l a = tt
Alert-Awake testing l a = tt
Alert-Awake handling l a = tt
Alert-Awake calling l a = tt
Alert-Awake ended l a = tt

new_loop-Holds : (setup : Actions) → Quiet setup → Holds (new_loop setup)
unfolding new_loop
new_loop-Holds setup q = record { ordered = refl; alert = (refl, refl, tt, q) }

-- Other threads may queue functors and ask to quit from the time that the loop has been made; its
-- own thread is assumed to queue none before it enters `Loop`. However the steps of the loop and of
-- other threads interleave, the functors called, those taken out of the queue and those in it are
-- all that were queued, in order, none twice; and no wakeup is lost: where the loop may sleep in its
-- poll while functors wait or the flag to quit is set, its event descriptor has been written, or a
-- thread is about to write it.
pub on_events-Awake :
    (setup : Actions) (es : List Event)
    → Quiet setup
    → Ordered (on_events es (new_loop setup))
      × Awake (on_events es (new_loop setup)).phase (on_events es (new_loop setup))
on_events-Awake setup es q =
    let v = on_events-Holds es (new_loop setup) (new_loop-Holds setup q) in
    (
      v.ordered,
      Alert-Awake (on_events es (new_loop setup)).phase (on_events es (new_loop setup)) v.alert,
    )

-- A functor that the thread of the loop queues before it enters `Loop` is not announced: the first
-- poll begins with the functor waiting, and nothing has been or is to be written.
asleep_before_loop :
    (f : Functor)
    → on_events (step [] ∷ step [] ∷ step [] ∷ []) (new_loop (queue_in_loop f done))
      ≡ record (new_loop done) {
        is_looping = true;
        phase = polling;
        pending_functors = f ∷ [];
        queued = f ∷ [];
      }
unfolding on_events on_event loop_step act queue_here begin_loop test_quit new_loop
asleep_before_loop f = refl
