-- ===== src/System/Settings.antt =====
-- What is set by a request of flint/src/flint/handler/SystemControlHandler.cpp is what a later one gets.
use flingd_cc.Base.{
  String, Bool, true, false, some, [], ◌∷◌, str_eq, ◌≡◌, refl, if◌then◌else◌, Bool-cases, inl, inr,
}
use flingd_cc.Base.Int.{ℤ}
use flingd_cc.Base.Machine.{ok}
use flingd_cc.Media.Json.{Json, boolean, double, texts, object, end, member}
use flingd_cc.Control.Handler.{Response, bare}
use flingd_cc.System.Device.{Device, on_set_volume}
use flingd_cc.System.Control.{on_post}

module _ {D : Type 0} (print : Json D → String) (parse : String → Json D) (of_int : ℤ → D)
    (same : D → D → Bool) (iequals : String → String → Bool) (length_text : String → String) where
  -- the request to set a value
  abbrev pub set_request : (type_ name : String) → Json D → Json D
  set_request type_ name v = object (member "type" (texts type_) (member name v end))

  -- the request to get one
  abbrev pub get_request : String → Json D
  get_request type_ = object (member "type" (texts type_) end)

  -- the object that tells a volume
  abbrev pub volume_object : D → Json D
  volume_object x = object (
      member "success" (boolean true)
        (member "request_type" (texts "GET_VOLUME") (member "level" (double x) end)))

  abbrev pub volume_response : D → Response
  volume_response x = record {
    status = 200;
    headers =
        ("Content-Length", length_text (print (volume_object x)))
        ∷ ("Content-Type", "application/json")
        ∷ [];
    content = print (volume_object x);
  }

  -- A POST that sets the volume is answered with 200, and with the hardware told of it only where the
  -- volume is another one; a POST that asks for the volume then is answered with 200 and the JSON
  -- object that has the volume that was set as its level, or the one before where this is the same
  -- number. Both bodies are read as JSON,
  -- and the comparison without case tells the types apart.
  pub volume_kept :
      (s : Device D) (x : D) (set_body get_body : String)
      → str_eq set_body "" ≡ false
      → str_eq get_body "" ≡ false
      → parse set_body ≡ set_request "SET_VOLUME" "level" (double x)
      → parse get_body ≡ get_request "GET_VOLUME"
      → iequals "SET_VOLUME" "GET_VOLUME" ≡ false
      → iequals "SET_VOLUME" "GET_MUTED" ≡ false
      → iequals "SET_VOLUME" "SET_VOLUME" ≡ true
      → iequals "GET_VOLUME" "GET_VOLUME" ≡ true
      → (t : Device D) × (on_post print parse of_int same iequals length_text set_body s
          ≡ ok (some (bare 200)) t)
        × (t.volume ≡ (if same s.volume x then s.volume else x))
        × (t.calls ≡ (if same s.volume x then s.calls else on_set_volume x ∷ s.calls))
        × (on_post print parse of_int same iequals length_text get_body t
            ≡ ok (some (volume_response t.volume)) t)
  unfolding on_post
  volume_kept s x a b n k p q i₀ i₁ i₂ i₃ = elim (Bool-cases (same s.volume x)) [
    | inl e ↦ (s, simp (n, p, e, i₀, i₁, i₂), rw (e) refl, rw (e) refl, simp (k, q, i₃))
    | inr e ↦ (
      record s { volume = x; calls = on_set_volume x ∷ s.calls },
      simp (n, p, e, i₀, i₁, i₂),
      rw (e) refl,
      rw (e) refl,
      simp (k, q, i₃),
    )
  ]
