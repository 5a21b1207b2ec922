-- ===== src/Azm/Outputs/Laws/Segments.antt =====
-- The segments cover the addresses of the map, and end inside the address space.
use debug.Base.{
  ℕ, ◌+◌, ◌≤◌, ◌<◌, ◌≡◌, refl, ◌∙◌, ap, arith, ltb, Bool, true, false, ◌||◌, ◌==◌, if◌then◌else◌,
  List, [], ◌∷◌, All,
}
use debug.Azm.Outputs.WriteHex.{
  EmittedByteMap, AddressRange, insert_address, sorted_addresses, segments_from, write_segments,
}
use debug.Azm.Outputs.Laws.Rows.{covered, within}

has_address : List ℕ → ℕ → Bool
has_address [] x = false
has_address (address ∷ rest) x = address == x || has_address rest x

has_address-insert_address :
    (address : ℕ) (rest : List ℕ) (x : ℕ)
    → has_address (insert_address address rest) x ≡ (address == x || has_address rest x)
unfolding insert_address has_address
has_address-insert_address a [] x = refl
has_address-insert_address a (b ∷ rest) x = ground (arith, has_address-insert_address a rest x)

abbrev pub has_key : EmittedByteMap → ℕ → Bool
has_key [] x = false
has_key ((key, value) ∷ entries) x = key == x || has_key entries x

has_address-sorted_addresses :
    (bytes : EmittedByteMap) (x : ℕ) → has_address (sorted_addresses bytes) x ≡ has_key bytes x
unfolding sorted_addresses has_address
has_address-sorted_addresses [] x = refl
has_address-sorted_addresses ((key, value) ∷ entries) x =
    has_address-insert_address key (sorted_addresses entries) x
    ∙ ap (λ found. key == x || found) (has_address-sorted_addresses entries x)

-- Exactly the cells of the open segment and the addresses after it.
covered-segments_from :
    (start end : ℕ) (rest : List ℕ) (x : ℕ)
    → start ≤ end
    → covered (segments_from start end rest) x ≡ (within start end x || has_address rest x)
unfolding segments_from has_address
covered-segments_from start end [] x h = ground arith
covered-segments_from start end (address ∷ rest) x h = ground (
  arith,
  covered-segments_from start (address + 1) rest x,
  covered-segments_from address (address + 1) rest x,
)

covered-addresses :
    (addresses : List ℕ) (x : ℕ)
    → covered
        (elim addresses as (λ _. List AddressRange) [
          | [] ↦ []
          | first ∷ rest ↦ segments_from first (first + 1) rest
        ])
        x
      ≡ has_address addresses x
unfolding has_address
covered-addresses [] x = refl
covered-addresses (first ∷ rest) x =
    covered-segments_from first (first + 1) rest x (omega arith)
    ∙ ap (λ found. found || has_address rest x) (one_cell first x)
  where
    one_cell : (first x : ℕ) → within first (first + 1) x ≡ (first == x)
    one_cell first x = ground arith

pub covered-write_segments :
    (bytes : EmittedByteMap) (x : ℕ) → covered (write_segments bytes) x ≡ has_key bytes x
unfolding write_segments
covered-write_segments bytes x =
    covered-addresses (sorted_addresses bytes) x ∙ has_address-sorted_addresses bytes x

-- Addresses and the ends of segments in the 64K.
abbrev pub IsInside : EmittedByteMap → Type 0
IsInside bytes = All (λ entry. entry.0 < 65536) bytes

All-insert_address :
    (address : ℕ) (rest : List ℕ)
    → address < 65536
    → All (λ a. a < 65536) rest
    → All (λ a. a < 65536) (insert_address address rest)
unfolding insert_address
All-insert_address a [] h p = (h, tt)
All-insert_address a (b ∷ rest) h p =
    elim (ltb b a)
      as (λ test. All (λ a. a < 65536) (if test then b ∷ insert_address a rest else a ∷ b ∷ rest)) [
        | true ↦ (p.0, All-insert_address a rest h p.1)
        | false ↦ (h, p)
      ]

All-sorted_addresses :
    (bytes : EmittedByteMap) → IsInside bytes → All (λ a. a < 65536) (sorted_addresses bytes)
unfolding sorted_addresses
All-sorted_addresses [] p = tt
All-sorted_addresses ((key, value) ∷ entries) p =
    All-insert_address key (sorted_addresses entries) p.0 (All-sorted_addresses entries p.1)

abbrev pub EndsInside : List AddressRange → Type 0
EndsInside segments = All (λ segment. segment.end ≤ 65536) segments

segments_from-EndsInside :
    (start end : ℕ) (rest : List ℕ)
    → end ≤ 65536
    → All (λ a. a < 65536) rest
    → EndsInside (segments_from start end rest)
unfolding segments_from
segments_from-EndsInside start end [] h p = (h, tt)
segments_from-EndsInside start end (address ∷ rest) h p =
    elim (address == end)
      as (λ test. EndsInside (
        let later = segments_from (if test then start else address) (address + 1) rest in
        if test then later else record { start = start; end = end } ∷ later)) [
          | true ↦ segments_from-EndsInside start (address + 1) rest (omega (arith, p.0)) p.1
          | false ↦
              (h, segments_from-EndsInside address (address + 1) rest (omega (arith, p.0)) p.1)
        ]

pub write_segments-EndsInside :
    (bytes : EmittedByteMap) → IsInside bytes → EndsInside (write_segments bytes)
unfolding write_segments
write_segments-EndsInside bytes p =
    addresses_inside (sorted_addresses bytes) (All-sorted_addresses bytes p)
  where
    addresses_inside :
        (addresses : List ℕ)
        → All (λ a. a < 65536) addresses
        → EndsInside (elim addresses as (λ _. List AddressRange) [
          | [] ↦ []
          | first ∷ rest ↦ segments_from first (first + 1) rest
        ])
    addresses_inside [] p = tt
    addresses_inside (first ∷ rest) p =
        segments_from-EndsInside first (first + 1) rest (omega (arith, p.0)) p.1
