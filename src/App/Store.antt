-- ===== src/App/Store.antt =====
-- The store: application objects at addresses, the fields of the ApplicationManager singleton of
-- flint/src/flint/application/ApplicationManager.h, and the calls made to the platform.
-- A run ends with a result, with a fault (an object is used after `delete`), or without fuel.
use flingd_cc.Base.{ℕ, suc, String, Option, none, some, List, [], ◌∷◌, ◌==◌, if◌then◌else◌}
use flingd_cc.App.Object.{Application}

abbrev pub Ptr : Type 0
Ptr = ℕ

abbrev pub Heap : Type 0
Heap = Ptr → Option Application

unfoldable pub write : Heap → Ptr → Option Application → Heap
write h p c q = if q == p then c else h q

pub data PlatformCall : Type 0 where
  launch_call : String → PlatformCall
  stop_call : String → PlatformCall

pub record World : Type 0 where
  pub apps : Heap
  -- the address that the next `new Application` returns
  pub next : Ptr
  pub top : Option Ptr
  pub starting : Option Ptr
  pub stopping : Option Ptr
  pub pending : List Ptr
  -- newest first
  pub calls : List PlatformCall

pub data Run (A : Type 0) : Type 0 where
  ok : A → World → Run A
  fault : Run A
  out_of_fuel : Run A

abbrev pub Cmd : Type 0 → Type 0
Cmd A = World → Run A

abbrev pub pure : {A : Type 0} → A → Cmd A
pure = ok

abbrev pub skip : Cmd (Unit {0})
skip = ok tt

module _ {A B : Type 0} where
  abbrev pub and_then : Run A → (A → Cmd B) → Run B
  and_then (ok a w) k = k a w
  and_then fault k = fault
  and_then out_of_fuel k = out_of_fuel

  infixl 5 ◌>>=◌ ◌>>◌
  abbrev pub ◌>>=◌ : Cmd A → (A → Cmd B) → Cmd B
  m >>= k = λ w. and_then (m w) k

  abbrev pub ◌>>◌ : Cmd A → Cmd B → Cmd B
  m >> n = m >>= λ _. n

abbrev pub get : Cmd World
get w = ok w w

-- `*p`: a fault where no object lives.
abbrev pub load_from : Option Application → Cmd Application
load_from none w = fault
load_from (some a) w = ok a w

unfoldable pub load : Ptr → Cmd Application
load p w = load_from (w.apps p) w

unfoldable pub store : Ptr → Application → Cmd (Unit {0})
store p a w = ok tt (record w { apps = write w.apps p (some a) })

-- `delete p`
unfoldable pub free : Ptr → Cmd (Unit {0})
free p w = ok tt (record w { apps = write w.apps p none })

-- `new Application(...)`
unfoldable pub allocate : Application → Cmd Ptr
allocate a w = ok w.next (record w { apps = write w.apps w.next (some a); next = suc w.next })

abbrev pub set_top : Option Ptr → Cmd (Unit {0})
set_top o w = ok tt (record w { top = o })

abbrev pub set_starting : Option Ptr → Cmd (Unit {0})
set_starting o w = ok tt (record w { starting = o })

abbrev pub set_stopping : Option Ptr → Cmd (Unit {0})
set_stopping o w = ok tt (record w { stopping = o })

abbrev pub set_pending : List Ptr → Cmd (Unit {0})
set_pending ps w = ok tt (record w { pending = ps })

abbrev pub call : PlatformCall → Cmd (Unit {0})
call c w = ok tt (record w { calls = c ∷ w.calls })

-- No object yet, and no pointer.
abbrev pub empty_world : World
empty_world = record {
  apps = λ _. none;
  next = 0;
  top = none;
  starting = none;
  stopping = none;
  pending = [];
  calls = [];
}
