-- ===== src/Loader/Lowered.antt =====
-- pkg/storage/record_loader.go: the map from lower-case keys to header names.
use mathlib.Core.List.Permᴰ
use auto_mock_tools.Prelude.{
  ◌≡◌, ◌⊎◌, inl, inr, refl, sym, ap, ◌∙◌, Bool-cases, [], ◌∷◌, arith, Option, some, Bytes, equal,
  equal_iff, Assoc, lookup, insert, lookup-insert, All, In, In-perm,
}
use auto_mock_tools.Host.{Host}
use auto_mock_tools.Ascii.{to_lower_ascii_simple}
use auto_mock_tools.Loader.Fields.{header_keys_lower, header_keys_lower_from}

-- each key under its lower case
abbrev pub Keyed : Assoc Bytes → Type 0
Keyed = All (λ (t : Bytes × Bytes). t.0 ≡ to_lower_ascii_simple t.1)

insert-Keyed :
    (k : Bytes) (m : Assoc Bytes) → Keyed m → Keyed (insert (to_lower_ascii_simple k) k m)
unfolding insert
insert-Keyed k [] h = (refl, tt)
insert-Keyed k ((j, w) ∷ m) h = ground (arith, insert-Keyed k m h.1)

header_keys_lower_from-Keyed :
    (acc m : Assoc Bytes) → Keyed acc → Keyed (header_keys_lower_from acc m)
unfolding header_keys_lower_from
header_keys_lower_from-Keyed acc [] h = h
header_keys_lower_from-Keyed acc ((k, v) ∷ m) h =
    header_keys_lower_from-Keyed (insert (to_lower_ascii_simple k) k acc) m (insert-Keyed k acc h)

-- A header name that stands under the lower-case key, among these headers.
pub record NamedBy (key : Bytes) (headers : Assoc Bytes) (found : Option Bytes) : Type 0 where
  pub name : Bytes
  pub value : Bytes
  pub found_name : found ≡ some name
  pub is_header : In (name, value) headers
  pub lowered : to_lower_ascii_simple name ≡ key

-- Under the lower case of each header, one of the headers with that lower case stands.
abbrev pub Covers : Assoc Bytes → Assoc Bytes → Type 0
Covers headers keys =
    (k v : Bytes)
    → In (k, v) headers
    → NamedBy (to_lower_ascii_simple k) headers (lookup (to_lower_ascii_simple k) keys)

NamedBy-later :
    (key j w : Bytes) (headers : Assoc Bytes) (found : Option Bytes)
    → NamedBy key headers found
    → NamedBy key ((j, w) ∷ headers) found
NamedBy-later key j w headers found h = record {
  name = h.name;
  value = h.value;
  found_name = h.found_name;
  is_header = inr h.is_header;
  lowered = h.lowered;
}

-- What a key finds is as before, or one of the visited headers.
header_keys_lower_from-NamedBy :
    (key : Bytes) (acc m : Assoc Bytes)
    → (lookup key (header_keys_lower_from acc m) ≡ lookup key acc)
      ⊎ NamedBy key m (lookup key (header_keys_lower_from acc m))
unfolding header_keys_lower_from
header_keys_lower_from-NamedBy key acc [] = inl refl
header_keys_lower_from-NamedBy key acc ((j, w) ∷ m) =
    let low = to_lower_ascii_simple j in
    elim (header_keys_lower_from-NamedBy key (insert low j acc) m) [
      | inr named ↦ inr (NamedBy-later key j w m _ named)
      | inl same ↦ elim (Bool-cases (equal low key)) [
        | inr other ↦ inl (same ∙ lookup-insert low key j acc ∙ rw other refl)
        | inl here ↦ inr (record {
          name = j;
          value = w;
          found_name = same ∙ lookup-insert low key j acc ∙ rw here refl;
          is_header = inl refl;
          lowered = (equal_iff low key).0 here;
        })
      ]
    ]

header_keys_lower_from-Covers : (acc m : Assoc Bytes) → Covers m (header_keys_lower_from acc m)
unfolding header_keys_lower_from
header_keys_lower_from-Covers acc [] k v i = elim i [ ]
header_keys_lower_from-Covers acc ((j, w) ∷ m) k v (inr i) =
    NamedBy-later (to_lower_ascii_simple k) j w m _
      (header_keys_lower_from-Covers (insert (to_lower_ascii_simple j) j acc) m k v i)
header_keys_lower_from-Covers acc ((j, w) ∷ m) k v (inl e) =
    let low = to_lower_ascii_simple k in
    let same_low : to_lower_ascii_simple j ≡ low =
      ap (λ (t : Bytes × Bytes). to_lower_ascii_simple t.0) (sym e) in
    elim (header_keys_lower_from-NamedBy low (insert (to_lower_ascii_simple j) j acc) m) [
      | inr named ↦ NamedBy-later low j w m _ named
      | inl same ↦ record {
        name = j;
        value = w;
        found_name =
            same
            ∙ lookup-insert (to_lower_ascii_simple j) low j acc
            ∙ rw ((equal_iff (to_lower_ascii_simple j) low).1 same_low) refl;
        is_header = inl refl;
        lowered = same_low;
      }
    ]

module _ {F : Type 0} (host : Host F) where
  pub header_keys_lower-Keyed : (headers : Assoc Bytes) → Keyed (header_keys_lower host headers)
  unfolding header_keys_lower
  header_keys_lower-Keyed headers = header_keys_lower_from-Keyed [] (host.visit _ headers) tt

  pub header_keys_lower-Covers :
      (headers : Assoc Bytes) → Covers headers (header_keys_lower host headers)
  unfolding header_keys_lower
  header_keys_lower-Covers headers k v i =
      let order = host.visit-perm _ headers in
      let named =
        header_keys_lower_from-Covers [] (host.visit _ headers) k v
          (In-perm (k, v) (Permᴰ.symm order) i) in
      record {
        name = named.name;
        value = named.value;
        found_name = named.found_name;
        is_header = In-perm (named.name, named.value) order named.is_header;
        lowered = named.lowered;
      }
