-- ===== src/App/Refine/Relation.antt =====
-- How a world represents a phase, and what it means that a run meets an outcome.
use flingd_cc.Base.{◌<◌, ◌≡◌, ◌≢◌, none, some, List, [], ◌∷◌}
use flingd_cc.App.Store.{Ptr, Heap, World, PlatformCall, Run, ok, fault}
use flingd_cc.App.Phase.{
  Job, Phase, idle, starting, running, stopping, Outcome, to, crash, broken, IsWell,
}

abbrev pub ptrs : List Job → List Ptr
ptrs [] = []
ptrs (q ∷ qs) = q.ptr ∷ ptrs qs

-- The world with a given heap whose slots are those of a phase.
abbrev pub world : Heap → Ptr → List PlatformCall → Phase → World
world h n cs idle = record {
  apps = h;
  next = n;
  top = none;
  starting = none;
  stopping = none;
  pending = [];
  calls = cs;
}
world h n cs (starting j qs) = record {
  apps = h;
  next = n;
  top = none;
  starting = some j.ptr;
  stopping = none;
  pending = ptrs qs;
  calls = cs;
}
world h n cs (running j) = record {
  apps = h;
  next = n;
  top = some j.ptr;
  starting = none;
  stopping = none;
  pending = [];
  calls = cs;
}
world h n cs (stopping j qs) = record {
  apps = h;
  next = n;
  top = none;
  starting = none;
  stopping = some j.ptr;
  pending = ptrs qs;
  calls = cs;
}

-- The job's object lives at its address.
abbrev pub Lives : Heap → Ptr → Job → Type 0
Lives h n j = (h j.ptr ≡ some j.app) × (j.ptr < n)

abbrev pub Apart : Ptr → List Job → Type 0
Apart p [] = Unit {0}
Apart p (q ∷ qs) = (p ≢ q.ptr) × Apart p qs

-- All jobs live, at addresses of their own.
abbrev pub AllLive : Heap → Ptr → List Job → Type 0
AllLive h n [] = Unit {0}
AllLive h n (q ∷ qs) = Lives h n q × Apart q.ptr qs × AllLive h n qs

abbrev pub jobs : Phase → List Job
jobs idle = []
jobs (starting j qs) = j ∷ qs
jobs (running j) = j ∷ []
jobs (stopping j qs) = j ∷ qs

pub record Represents (w : World) (ph : Phase) : Type 0 where
  pub shape : w ≡ world w.apps w.next w.calls ph
  pub lives : AllLive w.apps w.next (jobs ph)
  pub well : IsWell ph

-- The manager would use an object that is deleted.
pub record IsBroken (w : World) : Type 0 where
  pub ptr : Ptr
  pub held : w.starting ≡ some ptr
  pub no_top : w.top ≡ none
  pub no_stopping : w.stopping ≡ none
  pub old : ptr < w.next
  pub deleted : w.apps ptr ≡ none

abbrev pub Meets : Outcome → Run (Unit {0}) → Type 0
Meets (to ph) r = (w : World) × (r ≡ ok tt w) × Represents w ph
Meets crash r = r ≡ fault
Meets broken r = (w : World) × (r ≡ ok tt w) × IsBroken w
