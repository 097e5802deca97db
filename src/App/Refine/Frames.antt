-- ===== src/App/Refine/Frames.antt =====
-- The jobs of a phase through a write to the heap.
use flingd_cc.Base.{suc, ◌≡◌, ◌≢◌, refl, Option, some, List, [], ◌∷◌, ◌++◌, arith}
use flingd_cc.App.Object.{Application}
use flingd_cc.App.Store.{Ptr, Heap, PlatformCall, ok, write}
use flingd_cc.App.Phase.{
  Job, Phase, idle, starting, running, stopping, with_app, to, IsWell, AllWaiting, IsWaiting,
}
use flingd_cc.App.Refine.Relation.{world, Apart, AllLive, jobs, Meets}
use flingd_cc.App.Refine.Writes.{write_self, write-ne}

-- A run that ends in the world of a well-formed phase meets it.
pub Meets-world :
    (h : Heap) (n : Ptr) (cs : List PlatformCall) (ph : Phase)
    → AllLive h n (jobs ph)
    → IsWell ph
    → Meets (to ph) (ok tt (world h n cs ph))
Meets-world h n cs idle l v = (_, refl, record { shape = refl; lives = l; well = v })
Meets-world h n cs (starting j qs) l v = (_, refl, record { shape = refl; lives = l; well = v })
Meets-world h n cs (running j) l v = (_, refl, record { shape = refl; lives = l; well = v })
Meets-world h n cs (stopping j qs) l v = (_, refl, record { shape = refl; lives = l; well = v })

pub AllLive-write :
    (h : Heap) (n p : Ptr) (c : Option Application) (qs : List Job)
    → Apart p qs
    → AllLive h n qs
    → AllLive (write h p c) n qs
AllLive-write h n p c [] d l = tt
AllLive-write h n p c (q ∷ qs) d l =
    ((ground (arith, write-ne h p q.ptr c d.0), l.0.1), l.1, AllLive-write h n p c qs d.1 l.2)

-- The first job's object is replaced.
pub AllLive-replace :
    (h : Heap) (n : Ptr) (j : Job) (a : Application) (qs : List Job)
    → AllLive h n (j ∷ qs)
    → AllLive (write h j.ptr (some a)) n (with_app j a ∷ qs)
AllLive-replace h n j a qs l =
    ((write_self h j.ptr (some a), l.0.1), l.1, AllLive-write h n j.ptr (some a) qs l.1 l.2)

Apart-suc : (h : Heap) (n : Ptr) (qs : List Job) → AllLive h n qs → Apart n qs
Apart-suc h n [] l = tt
Apart-suc h n (q ∷ qs) l = (omega (arith, l.0.1), Apart-suc h n qs l.2)

AllLive-suc : (h : Heap) (n : Ptr) (qs : List Job) → AllLive h n qs → AllLive h (suc n) qs
AllLive-suc h n [] l = tt
AllLive-suc h n (q ∷ qs) l = ((l.0.0, omega (arith, l.0.1)), l.1, AllLive-suc h n qs l.2)

Apart-snoc : (p : Ptr) (qs : List Job) (q : Job) → Apart p qs → p ≢ q.ptr → Apart p (qs ++ q ∷ [])
Apart-snoc p [] q d e = (e, tt)
Apart-snoc p (r ∷ qs) q d e = (d.0, Apart-snoc p qs q d.1 e)

AllLive-snoc :
    (h : Heap) (n : Ptr) (qs : List Job) (a : Application)
    → AllLive h (suc n) qs
    → AllLive h n qs
    → h n ≡ some a
    → AllLive h (suc n) (qs ++ record { ptr = n; app = a } ∷ [])
AllLive-snoc h n [] a l k e = ((e, omega arith), tt, tt)
AllLive-snoc h n (q ∷ qs) a l k e =
    (l.0, Apart-snoc q.ptr qs _ l.1 (omega (arith, k.0.1)), AllLive-snoc h n qs a l.2 k.2 e)

-- A new object joins the queue.
pub AllLive-enqueue :
    (h : Heap) (n : Ptr) (a : Application) (qs : List Job)
    → AllLive h n qs
    → AllLive (write h n (some a)) (suc n) (qs ++ record { ptr = n; app = a } ∷ [])
AllLive-enqueue h n a qs l =
    let k = AllLive-write h n n (some a) qs (Apart-suc h n qs l) l in
    AllLive-snoc (write h n (some a)) n qs a (AllLive-suc _ n qs k) k (write_self h n (some a))

-- It leaves the others as they are.
pub AllLive-allocate :
    (h : Heap) (n : Ptr) (c : Option Application) (qs : List Job)
    → AllLive h n qs
    → AllLive (write h n c) (suc n) qs
AllLive-allocate h n c qs l = AllLive-suc _ n qs (AllLive-write h n n c qs (Apart-suc h n qs l) l)

pub AllWaiting-snoc :
    (qs : List Job) (q : Job) → AllWaiting qs → IsWaiting q.app → AllWaiting (qs ++ q ∷ [])
AllWaiting-snoc [] q v x = (x, tt)
AllWaiting-snoc (r ∷ qs) q v x = (v.0, AllWaiting-snoc qs q v.1 x)
