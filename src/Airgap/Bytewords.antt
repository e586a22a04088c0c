-- ===== src/Airgap/Bytewords.antt =====
-- src/airgap/bytewords.ts: bytes as four-letter words, whole or by their first and last letters.

pub mod Tables
pub mod RoundTrip
pub mod Canonical
pub mod Lower
use labyrinth_vault.Prelude.{
  ℕ, zero, suc, ◌+◌, ◌-◌, ◌*◌, ◌/◌, ◌%◌, ◌^◌, ◌++◌, Bool, true, false, ◌&&◌, List, [], ◌∷◌, Option,
  none, some, if◌then◌else◌, ltb, leb, ◌==◌, ◌>>=◌, ◌>>◌, guard, length, take, drop, bit_and, all,
  Text, codes, text_eq, trim, is_space, is_upper, is_lower,
}
use labyrinth_vault.Airgap.Crc.{crc32}

-- BLOB
abbrev pub blob : Text
blob =
    codes
      "ableacidalsoapexaquaarchatomauntawayaxisbackbaldbarnbeltbetabiasbluebodybragbrewbulbbuzzcalmcashcatschefcityclawcodecolacookcostcruxcurlcuspcyandarkdatadaysdelidicedietdoordowndrawdropdrumdulldutyeacheasyechoedgeepicevenexamexiteyesfactfairfernfigsfilmfishfizzflapflewfluxfoxyfreefrogfuelfundgalagamegeargemsgiftgirlglowgoodgraygrimgurugushgyrohalfhanghardhawkheathelphighhillholyhopehornhutsicedideaidleinchinkyintoirisironitemjadejazzjoinjoltjowljudojugsjumpjunkjurykeepkenokeptkeyskickkilnkingkitekiwiknoblamblavalazyleaflegsliarlimplionlistlogoloudloveluaulucklungmainmanymathmazememomenumeowmildmintmissmonknailnavyneednewsnextnoonnotenumbobeyoboeomitonyxopenovalowlspaidpartpeckplaypluspoempoolposepuffpumapurrquadquizraceramprealredorichroadrockroofrubyruinrunsrustsafesagascarsetssilkskewslotsoapsolosongstubsurfswantacotasktaxitenttiedtimetinytoiltombtoystriptunatwinuglyundouniturgeuservastveryvetovialvibeviewvisavoidvowswallwandwarmwaspwavewaxywebswhatwhenwhizwolfworkyankyawnyellyogayurtzapszerozestzinczonezoom"

pub data BytewordStyle : Type 0 where
  standard minimal uri : BytewordStyle

unfoldable pub word_for : ℕ → Text
word_for b = take 4 (drop (b * 4) blob)

-- The character at an index, as a string.
letter_at : ℕ → Text → Text
letter_at i s = take 1 (drop i s)

unfoldable pub minimal_for : ℕ → Text
unfolding letter_at
minimal_for b = letter_at (b * 4) blob ++ letter_at (b * 4 + 3) blob

-- The words of `n` bytes from `b` on, with their bytes.
entries : (ℕ → Text) → ℕ → ℕ → List (Text × ℕ)
entries form zero b = []
entries form (suc n) b = (form b, b) ∷ entries form n (b + 1)

-- `Map.get` of a map that was filled in this order, in which a later entry replaces an earlier one.
pub find : Text → List (Text × ℕ) → Option ℕ
find t [] = none
find t ((w, b) ∷ m) = elim (find t m) [
  | some c ↦ some c
  | none ↦ if text_eq w t then some b else none
]

unfoldable pub full_index : List (Text × ℕ)
unfolding entries word_for
full_index = entries word_for 256 0

unfoldable pub minimal_index : List (Text × ℕ)
unfolding entries minimal_for
minimal_index = entries minimal_for 256 0

-- `(crc >>> shift) & 0xff`
pub checksum_byte : ℕ → ℕ → ℕ
checksum_byte crc shift = bit_and (crc / 2 ^ shift) 0xff

pub with_checksum : List ℕ → List ℕ
unfolding checksum_byte
with_checksum payload =
    let crc = crc32 payload in
    payload
    ++ checksum_byte crc 24 ∷ checksum_byte crc 16 ∷ checksum_byte crc 8 ∷ checksum_byte crc 0 ∷ []

-- `words.join(separator)`
unfoldable pub join : ℕ → (ℕ → Text) → List ℕ → Text
join separator form [] = []
join separator form (b ∷ []) = form b
join separator form (b ∷ c ∷ bs) = form b ++ separator ∷ join separator form (c ∷ bs)

pub pairs_of : List ℕ → Text
pairs_of [] = []
pairs_of (b ∷ bs) = minimal_for b ++ pairs_of bs

unfoldable pub bytewords_encode : List ℕ → BytewordStyle → Text
unfolding with_checksum pairs_of join
bytewords_encode payload minimal = pairs_of (with_checksum payload)
bytewords_encode payload uri = join b'-' word_for (with_checksum payload)
bytewords_encode payload standard = join b' ' word_for (with_checksum payload)

-- `toLowerCase`. Outside ASCII only two characters have a lower case with an ASCII letter: the
-- Kelvin sign, and the capital I with a dot, whose lower case is that letter and a combining dot.
-- The others are left: what they become is outside ASCII as they are.
pub lower_one : ℕ → Text
lower_one c =
    if is_upper c
    then (c + 32) ∷ []
    else if c == 0x212a
    then b'k' ∷ []
    else if c == 0x130
    then b'i' ∷ 0x307 ∷ []
    else c ∷ []

pub to_lower : Text → Text
to_lower [] = []
to_lower (c ∷ cs) = lower_one c ++ to_lower cs

-- The loop over pairs of letters.
pub read_pairs : Text → Option (List ℕ)
read_pairs [] = some []
read_pairs (c ∷ []) = none
read_pairs (c ∷ d ∷ s) = do b ← find (c ∷ d ∷ []) minimal_index; bs ← read_pairs s; some (b ∷ bs)

-- `split`, at every character of a class.
split : (ℕ → Bool) → Text → Text → List Text
split p word [] = word ∷ []
split p word (c ∷ s) =
    let next = split p [] s in
    let more = split p (word ++ c ∷ []) s in if p c then word ∷ next else more

is_dash : ℕ → Bool
is_dash c = c == b'-'

nonempty : List Text → List Text
nonempty [] = []
nonempty ([] ∷ ws) = nonempty ws
nonempty ((c ∷ w) ∷ ws) = (c ∷ w) ∷ nonempty ws

-- `split(/\s+/)` of a trimmed text, where a run of white space stands only between words.
split_spaces : Text → List Text
split_spaces s = nonempty (split is_space [] s)

read_words : List Text → Option (List ℕ)
read_words [] = some []
read_words (w ∷ ws) = do b ← find w full_index; bs ← read_words ws; some (b ∷ bs)

-- `clean.length ? clean.split(…) : []`
parts_of : (Text → List Text) → Text → List Text
parts_of splitting [] = []
parts_of splitting (c ∷ s) = splitting (c ∷ s)

-- The checksum's four bytes as a number, big-endian.
pub number_from_bytes : ℕ → List ℕ → ℕ
number_from_bytes n [] = n
number_from_bytes n (b ∷ bs) = number_from_bytes (n * 256 + b) bs

pub check : List ℕ → Option (List ℕ)
unfolding number_from_bytes
check bytes = do
  guard (leb 4 (length bytes))
  let payload = take (length bytes - 4) bytes
  guard (crc32 payload == number_from_bytes 0 (drop (length bytes - 4) bytes))
  some payload

-- The bytes of a clean text, the checksum still with them.
pub read_style : BytewordStyle → Text → Option (List ℕ)
unfolding read_pairs read_words parts_of split split_spaces nonempty is_dash
read_style minimal clean = guard (all is_lower clean && length clean % 2 == 0) >> read_pairs clean
read_style uri clean = read_words (parts_of (split is_dash []) clean)
read_style standard clean = read_words (parts_of split_spaces clean)

unfoldable pub bytewords_decode : Text → BytewordStyle → Option (List ℕ)
unfolding read_style check to_lower lower_one find
bytewords_decode text style = read_style style (to_lower (trim text)) >>= check
