-- ===== src/Sdk/Delivery.antt =====
-- What becomes of the messages that are sent on a channel of sdk/receiver/src/message/MessageChannel.cpp.
use flingd_cc.Base.{
  ℕ, ◌+◌, String, true, false, List, [], ◌∷◌, ◌++◌, some, str_eq, ◌≡◌, refl, arith, if◌then◌else◌,
  All, All-append, Bool-cases, inl, inr, ap, ◌∙◌,
}
use flingd_cc.Base.Machine.{ok, skip, ◌>>◌}
use flingd_cc.Sdk.Store.{ChannelName, ipc, receivers, Task, sending, closing, Channel, Sdk, Do}
use flingd_cc.Sdk.Channel.{send_now, flushed, send, run_task, flush}

-- What happens on the channel: a call of send, a task of the io_service, and the opening of
-- the connection. Its end deletes the channel, and is an event of the managers.
pub data LineEvent : Type 0 where
  sends : String → LineEvent
  runs : LineEvent
  opens : LineEvent

unfoldable pub line_step : LineEvent → Do
unfolding send run_task flush
line_step (sends m) = send ipc m
line_step runs = run_task
line_step opens = flush ipc

unfoldable pub run_line : List LineEvent → Do
unfolding line_step
run_line [] = skip
run_line (e ∷ es) = do line_step e; run_line es

abbrev occurs : String → String → ℕ
occurs m t = if str_eq m t then 1 else 0

-- How often a message stands in a list.
abbrev pub count : String → List String → ℕ
count m [] = 0
count m (t ∷ ts) = occurs m t + count m ts

-- how often a message that is not empty is sent again from a list
abbrev count_full : String → List String → ℕ
count_full m [] = 0
count_full m (t ∷ ts) = (if str_eq t "" then 0 else occurs m t) + count_full m ts

abbrev pub queued : List (ChannelName × Task) → List String
queued [] = []
queued ((n, sending t) ∷ ts) = t ∷ queued ts
queued ((n, closing) ∷ ts) = queued ts

-- The tasks send on the channel of the ipc, and no message is empty.
abbrev pub IsSending : ChannelName × Task → Type 0
IsSending (ipc, sending t) = str_eq t "" ≡ false
IsSending e = ⊥

abbrev pub IsFull : String → Type 0
IsFull t = str_eq t "" ≡ false

pub record IsLine (w : Sdk) (c : Channel) : Type 0 where
  pub here : w.ipc_channel ≡ some c
  pub ready : All IsSending w.tasks
  pub full : All IsFull c.pending

abbrev pub sent_by : List LineEvent → List String
sent_by [] = []
sent_by (sends m ∷ es) = if str_eq m "" then sent_by es else m ∷ sent_by es
sent_by (runs ∷ es) = sent_by es
sent_by (opens ∷ es) = sent_by es

-- How often a message is on the wire, in a task or pending.
abbrev pub total : String → Sdk → Channel → ℕ
total m w c = count m c.wire + (count m (queued w.tasks) + count m c.pending)

count-append : (m : String) (xs ys : List String) → count m (xs ++ ys) ≡ count m xs + count m ys
count-append m [] ys = omega arith
count-append m (x ∷ xs) ys = omega (arith, count-append m xs ys)

pub queued-append : (xs ys : List (ChannelName × Task)) → queued (xs ++ ys) ≡ queued xs ++ queued ys
queued-append [] ys = refl
queued-append ((n, sending t) ∷ xs) ys = ap (λ l. t ∷ l) (queued-append xs ys)
queued-append ((n, closing) ∷ xs) ys = queued-append xs ys

count-queued :
    (m : String) (xs ys : List (ChannelName × Task))
    → count m (queued (xs ++ ys)) ≡ count m (queued xs) + count m (queued ys)
count-queued m xs ys = ap (count m) (queued-append xs ys) ∙ count-append m (queued xs) (queued ys)

-- What is sent again from messages that are not empty is these messages.
pub flushed_lem : (ms : List String) → All IsFull ms → queued (flushed ipc ms) ≡ ms
unfolding flushed
flushed_lem [] h = refl
flushed_lem (m ∷ ms) h = let rest = flushed_lem ms h.1 in rw (h.0) (ap (λ l. m ∷ l) rest)

pub flushed-IsSending : (ms : List String) → All IsFull ms → All IsSending (flushed ipc ms)
unfolding flushed
flushed-IsSending [] h = tt
flushed-IsSending (m ∷ ms) h = rw (h.0) (h.0, flushed-IsSending ms h.1)

-- A step from one channel to another, in which only the messages that are sent come in
record IsKept (e : LineEvent) (w : Sdk) (c : Channel) (x : Sdk) (d : Channel) : Type 0 where
  pub ends : line_step e w ≡ ok tt x
  pub line : IsLine x d
  pub live : d.connecting ≡ true
  pub kept : (m : String) → total m x d ≡ count m (sent_by (e ∷ [])) + total m w c

module _ (w : Sdk) (c : Channel) (h : IsLine w c) (l : c.connecting ≡ true) where
  send-IsKept : (t : String) → (x : Sdk) × IsKept (sends t) w c x c
  unfolding line_step
  send-IsKept t = elim (Bool-cases (str_eq t "")) [
    | inl e ↦
        (w, record { ends = simp (h.here, e); line = h; live = l; kept = λ m. rw (e) omega arith })
    | inr e ↦ (
      record w { tasks = w.tasks ++ (ipc, sending t) ∷ [] },
      record {
        ends = simp (h.here, e, l);
        line = record {
          here = h.here;
          ready = All-append IsSending w.tasks ((ipc, sending t) ∷ []) h.ready (e, tt);
          full = h.full;
        };
        live = l;
        kept = λ m. rw (e) omega (arith, count-queued m w.tasks ((ipc, sending t) ∷ []));
      },
    )
  ]

  open-IsKept : (x : Sdk) × (d : Channel) × IsKept opens w c x d
  unfolding line_step
  open-IsKept = (
    record w {
      tasks = w.tasks ++ flushed ipc c.pending;
      ipc_channel = some (record c { pending = []; opened = true });
    },
    record c { pending = []; opened = true },
    record {
      ends = simp (h.here);
      line = record {
        here = refl;
        ready =
            All-append IsSending w.tasks (flushed ipc c.pending) h.ready
              (flushed-IsSending c.pending h.full);
        full = tt;
      };
      live = l;
      kept = λ m. omega (
        arith,
        count-queued m w.tasks (flushed ipc c.pending),
        ap (count m) (flushed_lem c.pending h.full),
      );
    },
  )

  idle-IsKept : w.tasks ≡ [] → (x : Sdk) × (d : Channel) × IsKept runs w c x d
  unfolding line_step
  idle-IsKept e = (w, c, record { ends = simp (e); line = h; live = l; kept = λ m. omega arith })

  task-IsKept :
      (t : String) (ts : List (ChannelName × Task))
      → w.tasks ≡ (ipc, sending t) ∷ ts
      → All IsSending ((ipc, sending t) ∷ ts)
      → (x : Sdk) × (d : Channel) × IsKept runs w c x d
  unfolding line_step send_now
  task-IsKept t ts e a = elim (Bool-cases c.opened) [
    | inl o ↦ (
      record w { tasks = ts; ipc_channel = some (record c { wire = c.wire ++ t ∷ [] }) },
      record c { wire = c.wire ++ t ∷ [] },
      record {
        ends = simp (e, h.here, o);
        line = record { here = refl; ready = a.1; full = h.full };
        live = l;
        kept = λ m. rw (e) omega (arith, count-append m c.wire (t ∷ []));
      },
    )
    | inr o ↦ (
      record w { tasks = ts; ipc_channel = some (record c { pending = c.pending ++ t ∷ [] }) },
      record c { pending = c.pending ++ t ∷ [] },
      record {
        ends = simp (e, h.here, o);
        line = record {
          here = refl;
          ready = a.1;
          full = All-append IsFull c.pending (t ∷ []) h.full (a.0, tt);
        };
        live = l;
        kept = λ m. rw (e) omega (arith, count-append m c.pending (t ∷ []));
      },
    )
  ]

  run-IsKept :
      (ts : List (ChannelName × Task))
      → w.tasks ≡ ts
      → All IsSending ts
      → (x : Sdk) × (d : Channel) × IsKept runs w c x d
  run-IsKept [] e a = idle-IsKept e
  run-IsKept ((ipc, sending t) ∷ ts) e a = task-IsKept t ts e a
  run-IsKept ((ipc, closing) ∷ ts) e a = absurd a.0
  run-IsKept ((receivers, t) ∷ ts) e a = absurd a.0

  step-IsKept : (e : LineEvent) → (x : Sdk) × (d : Channel) × IsKept e w c x d
  step-IsKept (sends t) = let k = send-IsKept t in (k.0, c, k.1)
  step-IsKept runs = run-IsKept w.tasks refl h.ready
  step-IsKept opens = open-IsKept

count-sent_by :
    (m : String) (e : LineEvent) (es : List LineEvent)
    → count m (sent_by (e ∷ es)) ≡ count m (sent_by (e ∷ [])) + count m (sent_by es)
count-sent_by m (sends t) es = elim (Bool-cases (str_eq t "")) [
  | inl e ↦ rw (e) omega arith
  | inr e ↦ rw (e) omega arith
]
count-sent_by m runs es = omega arith
count-sent_by m opens es = omega arith

-- On a channel that was opened with a url, whose messages, in tasks and pending, are not empty, and while
-- the io_service has no other tasks and the connection does not end: whatever messages are sent, tasks
-- run, and however often the connection opens, the program does not fail, and each message stands on
-- the wire, in the tasks and among the pending messages together as often as before and as it was sent
-- since, the empty one never being sent.
pub line-IsKept :
    (es : List LineEvent) (w : Sdk) (c : Channel)
    → IsLine w c
    → c.connecting ≡ true
    → (x : Sdk) × (d : Channel) × (run_line es w ≡ ok tt x)
      × IsLine x d
      × (d.connecting ≡ true)
      × ((m : String) → total m x d ≡ count m (sent_by es) + total m w c)
unfolding run_line
line-IsKept [] w c h l = (w, c, refl, h, l, λ m. omega arith)
line-IsKept (e ∷ es) w c h l =
    let (x, d, k) = step-IsKept w c h l e in
    let r = line-IsKept es x d k.line k.live in
    (r.0, r.1, rw (k.ends) r.2, r.3, r.4, λ m. omega (arith, r.5 m, k.kept m, count-sent_by m e es))
