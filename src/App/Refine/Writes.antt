-- ===== src/App/Refine/Writes.antt =====
-- Reading the heap after writes.
use mathlib.Core.Path.{fun_ext}
use flingd_cc.Base.{◌≡◌, ◌≢◌, Option, arith}
use flingd_cc.App.Object.{Application}
use flingd_cc.App.Store.{Ptr, Heap, write}

pub write_self : (h : Heap) (p : Ptr) (c : Option Application) → write h p c p ≡ c
unfolding write
write_self h p c = ground arith

pub write-ne : (h : Heap) (p q : Ptr) (c : Option Application) → p ≢ q → write h p c q ≡ h q
unfolding write
write-ne h p q c d = ground arith

pub write-write :
    (h : Heap) (p : Ptr) (c d : Option Application) → write (write h p c) p d ≡ write h p d
unfolding write
write-write h p c d = fun_ext λ q. ground arith

pub ruleset writes = (write_self, write-write)
