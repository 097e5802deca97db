-- ===== src/Sdk/Sound.antt =====
-- What always holds of a manager of sdk/receiver/src/FlintReceiverManager.cpp and its parts, and the commands
-- on channels and buses that keep it.
use flingd_cc.Base.{
  String, Bool, true, false, List, [], ◌∷◌, ◌++◌, Option, none, some, is_some, str_eq, ◌≡◌, refl,
  sym, ◌∙◌, if◌then◌else◌, All, ap,
}
use flingd_cc.Base.Machine.{Cmd, get, skip, crash, ◌>>=◌, ◌>>◌}
use flingd_cc.Base.{Option-cases, inl, inr}
use flingd_cc.StdMap.{Distinct}
use flingd_cc.Media.Json.{Json}
use flingd_cc.Media.Keeps.{Holds, Keeps, ok-Keeps, bind-Keeps, if-Keeps}
use flingd_cc.Sdk.Store.{
  ChannelName, ipc, receivers, Task, sending, closing, Channel, BusManager, Notice, Sdk, Do,
  channel_of, set_channel, load, post, tell,
}
use flingd_cc.Sdk.Channel.{
  connect_to, send_now, tasks_for, flushed, post_on, open_channel, close_channel, send, perform,
  run_first, run_task, flush, mark_closed, send_to,
}

-- No two buses have the same namespace, and all have the channel that the bus manager has.
abbrev pub IsKnown : Option BusManager → Option Channel → Type 0
IsKnown none o = Unit {0}
IsKnown (some b) o =
    (b.linked ≡ is_some o) × Distinct b.buses × All (λ e. e.1.linked ≡ b.linked) b.buses

pub record IsSound (w : Sdk) : Type 0 where
  pub both : is_some w.ipc_channel ≡ is_some w.bus_manager
  pub known : IsKnown w.bus_manager w.receiver_channel

abbrev pub Sound : {A : Type 0} → Cmd Sdk A → Type 0
Sound m = Keeps IsSound m

pub skip-Sound : Sound skip
skip-Sound = ok-Keeps IsSound tt

pub get-Sound : Sound get
get-Sound = record { holds = λ w h. h }

pub seq-Sound : {m n : Do} → Sound m → Sound n → Sound (m >> n)
seq-Sound f g = bind-Keeps IsSound _ _ f (λ a. g)

pub get-then-Sound :
    {A : Type 0} → (f : Sdk → Cmd Sdk A) → ((w : Sdk) → Sound (f w)) → Sound (get >>= f)
get-then-Sound f g = bind-Keeps IsSound _ _ get-Sound g

pub if-Sound : (b : Bool) (m n : Do) → Sound m → Sound n → Sound (if b then m else n)
if-Sound b m n f g = if-Keeps IsSound b m n f g

pub unless-Sound : (b : Bool) (m : Do) → Sound m → Sound (if b then skip else m)
unless-Sound b m f = if-Sound b skip m skip-Sound f

pub when-Sound : (b : Bool) (m : Do) → Sound m → Sound (if b then m else skip)
when-Sound b m f = if-Sound b m skip f skip-Sound

pub post-Sound : (ts : List (ChannelName × Task)) → Sound (post ts)
unfolding post
post-Sound ts = record { holds = λ w h. record { both = h.both; known = h.known } }

pub tell-Sound : (ns : List Notice) → Sound (tell ns)
tell-Sound ns = record { holds = λ w h. record { both = h.both; known = h.known } }

IsKnown-some :
    (o : Option BusManager) (p : Option Channel) (c d : Channel)
    → p ≡ some c
    → IsKnown o p
    → IsKnown o (some d)
IsKnown-some none p c d e k = tt
IsKnown-some (some b) p c d e k = (k.0 ∙ ap is_some e, k.1, k.2)

-- A channel that is there is changed.
set_channel-IsSound :
    (n : ChannelName) (w : Sdk) (c d : Channel)
    → channel_of n w ≡ some c
    → IsSound w
    → Holds IsSound (set_channel n (some d) w)
set_channel-IsSound ipc w c d e h = record { both = sym (ap is_some e) ∙ h.both; known = h.known }
set_channel-IsSound receivers w c d e h = record {
  both = h.both;
  known = IsKnown-some w.bus_manager w.receiver_channel c d e h.known;
}

channel_of-tasks :
    (n : ChannelName) (w : Sdk) (ts : List (ChannelName × Task))
    → channel_of n (record w { tasks = ts }) ≡ channel_of n w
channel_of-tasks ipc w ts = refl
channel_of-tasks receivers w ts = refl

-- What is done with a channel that is there is all that matters.
pub load-Sound :
    (n : ChannelName) (k : Channel → Do)
    → ((w : Sdk) (c : Channel) → channel_of n w ≡ some c → IsSound w → Holds IsSound (k c w))
    → Sound (load n >>= k)
unfolding load
load-Sound n k f = record {
  holds = λ w h. elim (Option-cases (channel_of n w)) [
    | inl e ↦ simp (e) tt
    | inr s ↦ simp (s.1) (f w s.0 s.1 h)
  ];
}

change-Sound :
    (n : ChannelName) (f : Channel → Channel) → Sound (load n >>= (λ c. set_channel n (some (f c))))
change-Sound n f = load-Sound n _ (λ w c e h. set_channel-IsSound n w c (f c) e h)

post_on-Sound : (c : Channel) (ts : List (ChannelName × Task)) → Sound (post_on c ts)
unfolding post_on
post_on-Sound c [] = skip-Sound
post_on-Sound c (e ∷ ts) =
    if-Sound c.connecting (post (e ∷ ts)) crash (post-Sound (e ∷ ts)) (record { holds = λ w h. tt })

post-load-Sound :
    (n : ChannelName) (ts : List (ChannelName × Task)) → Sound (load n >>= (λ c. post_on c ts))
post-load-Sound n ts = load-Sound n _ (λ w c e h. (post_on-Sound c ts).holds w h)

pub open_channel-Sound : (n : ChannelName) (url : String) → Sound (open_channel n url)
unfolding open_channel
open_channel-Sound n url = change-Sound n (connect_to url)

pub close_channel-Sound : (n : ChannelName) → Sound (close_channel n)
unfolding close_channel
close_channel-Sound n = post-load-Sound n ((n, closing) ∷ [])

pub send-Sound : (n : ChannelName) (m : String) → Sound (send n m)
unfolding send
send-Sound n m = post-load-Sound n (tasks_for n m)

perform-Sound : (n : ChannelName) (t : Task) → Sound (perform n t)
unfolding perform
perform-Sound n (sending m) = change-Sound n (send_now m)
perform-Sound n closing = change-Sound n (λ c. record c { is_closing = true })

run_first-Sound : (ts : List (ChannelName × Task)) → Sound (run_first ts)
unfolding run_first
run_first-Sound [] = skip-Sound
run_first-Sound ((n, t) ∷ ts) = record {
  holds = λ w h.
      (perform-Sound n t).holds (record w { tasks = ts })
        (record { both = h.both; known = h.known });
}

pub run_task-Sound : Sound run_task
unfolding run_task
run_task-Sound = record { holds = λ w h. (run_first-Sound w.tasks).holds w h }

pub mark_closed-Sound : (n : ChannelName) → Sound (mark_closed n)
unfolding mark_closed
mark_closed-Sound n = change-Sound n (λ c. record c { opened = false })

pub flush-Sound : (n : ChannelName) → Sound (flush n)
unfolding flush
flush-Sound n = load-Sound n _ (λ w c e h.
    let ts = w.tasks ++ flushed n c.pending in
    set_channel-IsSound n (record w { tasks = ts }) c (record c { pending = []; opened = true })
      (channel_of-tasks n w ts ∙ e) (record { both = h.both; known = h.known }))

pub send_to-Sound :
    {D : Type 0}
    → (print : Json D → String) (n : ChannelName) (m sender : String)
    → Sound (send_to print n m sender)
unfolding send_to
send_to-Sound print n m sender = if-Sound (str_eq m "") skip _ skip-Sound (send-Sound n _)
