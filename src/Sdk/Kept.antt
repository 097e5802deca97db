-- ===== src/Sdk/Kept.antt =====
-- The commands on the buses, of sdk/receiver/src/MessageBusManager.cpp and ReceiverMessageBus.cpp, keep what
-- holds of a manager.
use flingd_cc.Base.{
  String, Bool, true, false, List, [], ◌∷◌, some, is_some, str_eq, ◌≡◌, refl, sym, ◌∙◌, subst, ap,
  All, Bool-cases, Option-cases, inl, inr, arith,
}
use flingd_cc.Base.Machine.{Cmd, skip, ◌>>=◌}
use flingd_cc.StdMap.{find, place, insert, Lacks, Distinct, Distinct-insert}
use flingd_cc.Media.Keeps.{Holds, bind-Keeps}
use flingd_cc.Sdk.Store.{receivers, Bus, BusManager, Sdk, Do, set_manager, load_manager}
use flingd_cc.Sdk.Bus.{
  clear_buses, open_buses, close_buses, create_bus, load_bus, change_bus, set_listener,
  on_open_buses, on_close_buses,
}
use flingd_cc.Sdk.Sound.{
  IsKnown, IsSound, Sound, skip-Sound, seq-Sound, if-Sound, open_channel-Sound, close_channel-Sound,
  flush-Sound, mark_closed-Sound,
}

pub load_manager-Sound :
    {A : Type 0}
    → (k : BusManager → Cmd Sdk A)
    → ((w : Sdk) (b : BusManager) → w.bus_manager ≡ some b → IsSound w → Holds IsSound (k b w))
    → Sound (load_manager >>= k)
unfolding load_manager
load_manager-Sound k f = record {
  holds = λ w h. elim (Option-cases w.bus_manager) [
    | inl e ↦ simp (e) tt
    | inr s ↦ simp (s.1) (f w s.0 s.1 h)
  ];
}

pub known_of :
    (w : Sdk) (b : BusManager)
    → w.bus_manager ≡ some b
    → IsSound w
    → IsKnown (some b) w.receiver_channel
known_of w b e h = subst (λ o. IsKnown o w.receiver_channel) e h.known

-- A bus manager in the place of another.
set_manager-IsSound :
    (w : Sdk) (b d : BusManager)
    → w.bus_manager ≡ some b
    → IsSound w
    → IsKnown (some d) w.receiver_channel
    → Holds IsSound (set_manager (some d) w)
set_manager-IsSound w b d e h k = record { both = h.both ∙ ap is_some e; known = k }

clear_buses-Sound : Sound clear_buses
unfolding clear_buses
clear_buses-Sound = load_manager-Sound _ (λ w b e h.
    let k = known_of w b e h in
    elim (Bool-cases b.linked) [
      | inl l ↦ simp (l) (record { both = h.both ∙ ap is_some e; known = (refl, tt, tt) })
      | inr l ↦ simp (l) (record { both = h.both ∙ ap is_some e; known = (sym l ∙ k.0, tt, tt) })
    ])

pub open_buses-Sound : (app_id url : String) → Sound (open_buses app_id url)
unfolding open_buses
open_buses-Sound app_id url = load_manager-Sound _ (λ w b e h.
    (if-Sound (str_eq app_id "") skip _ skip-Sound
        (if-Sound b.linked _ skip (open_channel-Sound receivers url) skip-Sound)).holds
      w h)

pub close_buses-Sound : Sound close_buses
unfolding close_buses
close_buses-Sound = load_manager-Sound _ (λ w b e h.
    (seq-Sound (if-Sound b.linked _ skip (close_channel-Sound receivers) skip-Sound)
        clear_buses-Sound).holds
      w h)

pub on_open_buses-Sound : Sound on_open_buses
unfolding on_open_buses
on_open_buses-Sound = seq-Sound (flush-Sound receivers) (
    load_manager-Sound _
      (λ w b e h. set_manager-IsSound w b (record b { opened = true }) e h (known_of w b e h)))

pub on_close_buses-Sound : Sound on_close_buses
unfolding on_close_buses
on_close_buses-Sound = seq-Sound (mark_closed-Sound receivers) clear_buses-Sound

module _ (P : String × Bus → Type 0) where
  All-place :
      (k : String) (v : Bus) (m : List (String × Bus)) → P (k, v) → All P m → All P (place k v m)
  unfolding place
  All-place k v [] p a = (p, tt)
  All-place k v ((j, u) ∷ m) p a = ground (arith, All-place k v m p a.1)

  All-insert :
      (k : String) (v : Bus) (m : List (String × Bus)) → P (k, v) → All P m → All P (insert k v m)
  unfolding insert
  All-insert k v m p a = ground (arith, All-place k v m p a)

  All-change_bus :
      (ns : String) (f : Bus → Bus) (m : List (String × Bus))
      → ((k : String) (b : Bus) → P (k, b) → P (k, f b))
      → All P m
      → All P (change_bus ns f m)
  unfolding change_bus
  All-change_bus ns f [] g a = tt
  All-change_bus ns f ((k, b) ∷ m) g a =
      let rest = All-change_bus ns f m g a.1 in
      elim (Bool-cases (str_eq k ns)) [
        | inl e ↦ rw (e) (g k b a.0, rest)
        | inr e ↦ rw (e) (a.0, rest)
      ]

Lacks-change_bus :
    (j ns : String) (f : Bus → Bus) (m : List (String × Bus))
    → Lacks j m
    → Lacks j (change_bus ns f m)
unfolding change_bus
Lacks-change_bus j ns f [] l = tt
Lacks-change_bus j ns f ((k, b) ∷ m) l =
    let rest = Lacks-change_bus j ns f m l.1 in
    elim (Bool-cases (str_eq k ns)) [ inl e ↦ rw (e) (l.0, rest) | inr e ↦ rw (e) (l.0, rest) ]

Distinct-change_bus :
    (ns : String) (f : Bus → Bus) (m : List (String × Bus))
    → Distinct m
    → Distinct (change_bus ns f m)
unfolding change_bus
Distinct-change_bus ns f [] d = tt
Distinct-change_bus ns f ((k, b) ∷ m) d =
    let rest = Distinct-change_bus ns f m d.1 in
    let first = Lacks-change_bus k ns f m d.0 in
    elim (Bool-cases (str_eq k ns)) [ inl e ↦ rw (e) (first, rest) | inr e ↦ rw (e) (first, rest) ]

pub create_bus-Sound : (ns : String) → Sound (create_bus ns)
unfolding create_bus
create_bus-Sound ns = load_manager-Sound _ (λ w b e h.
    let k = known_of w b e h in
    let new : Bus = record { listened = false; linked = b.linked } in
    elim (Bool-cases (str_eq ns "")) [
      | inl n ↦ simp (n) h
      | inr n ↦ elim (Bool-cases (is_some (find ns b.buses))) [
        | inl i ↦ simp (n, i) h
        | inr i ↦
            let r =
              set_manager-IsSound w b (record b { buses = insert ns new b.buses }) e h
                (
                  k.0,
                  Distinct-insert ns new b.buses k.1,
                  All-insert (λ u. u.1.linked ≡ b.linked) ns new b.buses refl k.2,
                ) in
            simp (n, i) (simp (i) at r)
      ]
    ])

pub load_bus-Sound :
    (ns : String) (k : Bus → Do) → ((b : Bus) → Sound (k b)) → Sound (load_bus ns >>= k)
unfolding load_bus
load_bus-Sound ns k f =
    bind-Keeps IsSound _ _
      (load_manager-Sound _ (λ w b e h. elim (Option-cases (find ns b.buses)) [
        | inl i ↦ simp (i) tt
        | inr s ↦ simp (s.1) h
      ]))
      f

pub set_listener-Sound : (ns : String) (l : Bool) → Sound (set_listener ns l)
unfolding set_listener
set_listener-Sound ns l = load_bus-Sound ns _ (λ a. load_manager-Sound _ (λ w b e h.
    let k = known_of w b e h in
    let f : Bus → Bus = λ u. record u { listened = l } in
    set_manager-IsSound w b (record b { buses = change_bus ns f b.buses }) e h
      (
        k.0,
        Distinct-change_bus ns f b.buses k.1,
        All-change_bus (λ u. u.1.linked ≡ b.linked) ns f b.buses (λ j u p. p) k.2,
      )))
