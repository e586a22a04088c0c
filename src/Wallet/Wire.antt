-- ===== src/Wallet/Wire.antt =====
-- wallet/src/core/wire.ts: a draft's frames on the screen, in the format of the vault. The other
-- format is an encoder of its own, and is not modelled.
use labyrinth_vault.Prelude.{
  ℕ, ◌+◌, ◌-◌, ◌*◌, ◌/◌, ◌%◌, ◌≡◌, refl, ◌∙◌, List, [], Option, none, some, Text, length, ltb, ◌==◌,
  ◌&&◌, ◌>>=◌, >>=-eq-some, if◌then◌else◌, max, get_elem?, arith,
}
use labyrinth_vault.Airgap.Envelope.{PayloadKind, psbt, xmrunsigned, encode_parts}
use labyrinth_vault.Airgap.Envelope.Transmission.{encode_parts-length}
use labyrinth_vault.Wallet.Model.{btc, xmr, Draft}

abbrev pub frame_ms : ℕ
frame_ms = 220

abbrev pub frame_bytes : ℕ
frame_bytes = 400

unfoldable pub kind_for : Draft → PayloadKind
kind_for d = elim (d.asset) [ btc ↦ psbt | xmr ↦ xmrunsigned ]

-- A `Transmission` in the vault's format.
pub record Transmission : Type 0 where
  pub kind : PayloadKind
  pub total : ℕ
  pub digest : Text
  pub frames : List Text
  pub cursor : ℕ
  pub laps : ℕ
  pub frame : Text

-- `frames[i] ?? ''`
frame_at : List Text → ℕ → Text
frame_at frames i = elim (get_elem? frames i) [ none ↦ [] | some f ↦ f ]

-- `transmit(draft)`, with the constructor; `none` is the exception of `encodeParts`.
unfoldable pub transmit : Draft → Option Transmission
unfolding kind_for frame_at
transmit d = do
  frames ← encode_parts (kind_for d) d.unsigned frame_bytes
  some (record {
    kind = kind_for d;
    total = length frames;
    digest = d.digest;
    frames = frames;
    cursor = 0;
    laps = 0;
    frame = frame_at frames 0;
  })

unfoldable pub advance : Transmission → Transmission
unfolding frame_at
advance t =
    let cursor = t.cursor + 1 in
    let place = cursor % length t.frames in
    record t {
      cursor = cursor;
      laps = if ltb 0 (length t.frames) && place == 0 then t.laps + 1 else t.laps;
      frame = frame_at t.frames place;
    }

-- `Math.max(1, Math.round((frames * FRAME_MS) / 1000))`
abbrev seconds_for : ℕ → ℕ
seconds_for frames = max 1 ((frames * frame_ms + 500) / 1000)

unfoldable pub pass_seconds : Transmission → ℕ
pass_seconds t = seconds_for t.total

-- The number of frames and of seconds.
unfoldable pub frame_estimate : ℕ → ℕ × ℕ
frame_estimate bytes =
    let frames = max 1 ((bytes + frame_bytes - 1) / frame_bytes) in (frames, seconds_for frames)

-- What the review screen says beforehand of a draft's bytes is what the transmission then has: the
-- number of frames, and the seconds of one pass.
frame_estimate-transmit :
    (d : Draft) (t : Transmission)
    → transmit d ≡ some t
    → frame_estimate (length d.unsigned) ≡ (t.total, pass_seconds t)
unfolding frame_estimate pass_seconds transmit
frame_estimate-transmit d t e =
    let (frames, e1, e2) =
      >>=-eq-some {B = Transmission} (encode_parts (kind_for d) d.unsigned frame_bytes) _ e in
    let q : t.total ≡ length frames = ground arith in
    let n = q ∙ encode_parts-length (kind_for d) d.unsigned frame_bytes frames e1 in rw n refl
