-- ===== src/Cli/LocalState/Laws.antt =====
-- What a change of the store does: all of it, or nothing.
use mdfly.Common.{
  if◌then◌else◌, Bool-cases, Option-cases, All, Str, str_eq, ◌≡◌, refl, sym, ap, subst, ◌⊎◌, inl,
  inr, Bool, true, false, not, Option, none, some, [], ◌∷◌, arith,
}
use mdfly.Common.Utf8.{valid}
use mdfly.Common.Dict.{Dict, lookup, insert, erase}
use mdfly.Cli.LocalState.{
  Record, Codec, Disk, BackUp, backed_up, not_backed_up, WriteCalls, Calls, StoreError, Answer, got,
  broke, write_atomic, recover_corrupt, records_or_empty, read_state, write_state, write_read,
  mutate, read_credentials, write_credentials, mutate_credentials, mkdir_failed, lock_failed,
  read_failed, decode_failed, wrote_state, wrote_credentials, parsed_state, opened_state,
  parsed_credentials, opened_credentials,
}
use mdfly.Common.Hex.{decode}

-- Text that JSON keeps as it is; other bytes are replaced.
abbrev pub IsText : Str → Type 0
IsText s = valid s ≡ true

abbrev pub IsOptText : Option Str → Type 0
IsOptText none = Unit
IsOptText (some s) = IsText s

abbrev pub IsTextRecord : Record → Type 0
IsTextRecord rec =
    IsText rec.slug
    × (IsText rec.url × (IsText rec.manifest_hash × (IsText rec.tier × IsOptText rec.path)))

abbrev pub AllText : {V : Type 0} → (V → Type 0) → Dict V → Type 0
AllText T d = All (λ e. IsText e.0 × T e.1) d

-- The same map; the order of the entries is that of no map.
abbrev pub Same : {V : Type 0} → Dict V → Dict V → Type 0
Same d e = (k : Str) → lookup k d ≡ lookup k e

-- JSON reads back a map of text that it wrote, in some order, and what it reads is text.
pub record ReadsBack (codec : Codec) : Type 0 where
  pub state :
      (records : Dict Record) (content : Str)
      → AllText IsTextRecord records
      → codec.encode_state records ≡ some content
      → (back : Dict Record) × ((codec.decode_state content ≡ some (some back)) × Same back records)
  pub state_text :
      (content : Str) (records : Dict Record)
      → codec.decode_state content ≡ some (some records)
      → AllText IsTextRecord records
  pub credentials :
      (tokens : Dict Str) (content : Str)
      → AllText IsText tokens
      → codec.encode_credentials tokens ≡ some content
      → (back : Dict Str) × ((codec.decode_credentials content ≡ some (some back))
          × Same back tokens)
  pub credentials_text :
      (content : Str) (tokens : Dict Str)
      → codec.decode_credentials content ≡ some (some tokens)
      → AllText IsText tokens

pub insert-AllText :
    {V : Type 0} (T : V → Type 0) (k : Str) (v : V) (d : Dict V)
    → IsText k
    → T v
    → AllText T d
    → AllText T (insert k v d)
unfolding insert
insert-AllText T k v [] p q a = ((p, q), tt)
insert-AllText T k v ((j, w) ∷ d) p q a = elim (Bool-cases (str_eq j k)) [
  | inl t ↦ rw (t, insert) ((p, q), a.1)
  | inr f ↦ rw (f, insert) (a.0, insert-AllText T k v d p q a.1)
]

pub erase-AllText :
    {V : Type 0} (T : V → Type 0) (k : Str) (d : Dict V) → AllText T d → AllText T (erase k d)
unfolding erase
erase-AllText T k [] a = tt
erase-AllText T k ((j, w) ∷ d) a = elim (Bool-cases (str_eq j k)) [
  | inl t ↦ rw (t, erase) (erase-AllText T k d a.1)
  | inr f ↦ rw (f, erase) (a.0, erase-AllText T k d a.1)
]

unfoldable pub decoded : {V : Type 0} → (Str → Option (Option (Dict V))) → Option Str → Dict V
unfolding records_or_empty
decoded decode none = []
decoded decode (some content) = elim (decode content) [ none ↦ [] | some rs ↦ records_or_empty rs ]

-- The records and the tokens that a disk holds; a file that cannot be decoded holds none.
abbrev pub records_of : Codec → Disk → Dict Record
records_of codec d = decoded codec.decode_state d.state

abbrev pub tokens_of : Codec → Disk → Dict Str
tokens_of codec d = decoded codec.decode_credentials d.credentials

-- Without an error the function is applied to the records, with one they stay; the tokens stay.
abbrev pub Applies : Codec → (Dict Record → Dict Record) → Disk → Disk × Option StoreError → Type 0
Applies codec fn d (d', none) =
    Same (records_of codec d') (fn (records_of codec d)) × (tokens_of codec d' ≡ tokens_of codec d)
Applies codec fn d (d', some e) =
    (records_of codec d' ≡ records_of codec d) × (tokens_of codec d' ≡ tokens_of codec d)

abbrev pub AppliesToTokens :
    Codec → (Dict Str → Dict Str) → Disk → Disk × Option StoreError → Type 0
AppliesToTokens codec fn d (d', none) =
    Same (tokens_of codec d') (fn (tokens_of codec d)) × (records_of codec d' ≡ records_of codec d)
AppliesToTokens codec fn d (d', some e) =
    (tokens_of codec d' ≡ tokens_of codec d) × (records_of codec d' ≡ records_of codec d)

write_atomic-cases :
    (c : WriteCalls) (old : Option Str) (new : Str)
    → (write_atomic c old new ≡ (some new, true)) ⊎ (write_atomic c old new ≡ (old, false))
unfolding write_atomic
write_atomic-cases c old new = ground arith

written :
    {V : Type 0} (decode : Str → Option (Option (Dict V))) (content : Str) (entries : Dict V)
    → (back : Dict V) × ((decode content ≡ some (some back)) × Same back entries)
    → Same (decoded decode (some content)) entries
unfolding decoded records_or_empty
written decode content entries (back, (e, same)) = rw (e, decoded) same

decoded-AllText :
    {V : Type 0} (T : V → Type 0) (decode : Str → Option (Option (Dict V)))
    → ((content : Str) (d : Dict V) → decode content ≡ some (some d) → AllText T d)
    → (o : Option Str) → AllText T (decoded decode o)
unfolding decoded records_or_empty
decoded-AllText T decode texts none = tt
decoded-AllText T decode texts (some content) = elim (Option-cases (decode content)) [
  | inl n ↦ rw (n, decoded) tt
  | inr (none, e) ↦ rw (e, decoded) tt
  | inr (some d, e) ↦ rw (e, decoded) (texts content d e)
]

if_both : {A : Type 0} (P : A → Type 0) (b : Bool) (x y : A) → P x → P y → P (if b then x else y)
if_both P true x y h k = h
if_both P false x y h k = k

-- A read gives the records, and leaves them and the credentials as they are.
abbrev pub Reads : Codec → Disk → Disk × Answer (Dict Record) → Type 0
Reads codec d (d', broke e) = d' ≡ d
Reads codec d (d', got records) =
    (records ≡ records_of codec d) × ((d'.state ≡ d.state) × (d'.credentials ≡ d.credentials))

module _ (codec : Codec) (c : Calls) (d : Disk) where
  parsed_state-Reads :
      (b : BackUp) (content : Str) (o : Option (Option (Dict Record)))
      → d.state ≡ some content
      → codec.decode_state content ≡ o
      → Reads codec d (parsed_state codec b d content o)
  unfolding parsed_state decoded recover_corrupt
  parsed_state-Reads backed_up content none e k = (rw (e, k, decoded) refl, (refl, refl))
  parsed_state-Reads (not_backed_up left) content none e k = (rw (e, k, decoded) refl, (refl, refl))
  parsed_state-Reads b content (some records) e k = (rw (e, k, decoded) refl, (refl, refl))

  opened_state-Reads :
      (b : BackUp) (o : Option Str) → d.state ≡ o → Reads codec d (opened_state codec b d o)
  unfolding opened_state decoded
  opened_state-Reads b none e = (rw (e, decoded) refl, (refl, refl))
  opened_state-Reads b (some content) e =
      parsed_state-Reads b content (codec.decode_state content) e refl

  pub read_state-Reads : Reads codec d (read_state codec c d)
  unfolding read_state
  read_state-Reads =
      if_both (Reads codec d) (not c.read_file) (d, broke read_failed)
        (opened_state codec c.back_up d d.state) refl (opened_state-Reads c.back_up d.state refl)

module _ (codec : Codec) (back : ReadsBack codec) where
  pub records_of-AllText : (d : Disk) → AllText IsTextRecord (records_of codec d)
  records_of-AllText d = decoded-AllText IsTextRecord codec.decode_state back.state_text d.state

  tokens_of-AllText : (d : Disk) → AllText IsText (tokens_of codec d)
  tokens_of-AllText d =
      decoded-AllText IsText codec.decode_credentials back.credentials_text d.credentials

  wrote_state-Applies :
      (c : Calls) (fn : Dict Record → Dict Record)
      (keeps : (rs : Dict Record) → AllText IsTextRecord rs → AllText IsTextRecord (fn rs))
      (d now : Disk) (content : Str)
      → codec.encode_state (fn (records_of codec d)) ≡ some content
      → now.state ≡ d.state
      → now.credentials ≡ d.credentials
      → Applies codec fn d (wrote_state now (write_atomic c.writes now.state content))
  unfolding wrote_state
  wrote_state-Applies c fn keeps d now content e s t =
      let records = fn (records_of codec d) in
      let same = ap (decoded codec.decode_credentials) t in
      elim (write_atomic-cases c.writes now.state content) [
        | inl w ↦
            subst (λ p. Applies codec fn d (wrote_state now p)) (sym w)
              (
                written codec.decode_state content records (
                    back.state records content (keeps (records_of codec d) (records_of-AllText d))
                      e),
                same,
              )
        | inr w ↦
            subst (λ p. Applies codec fn d (wrote_state now p)) (sym w)
              (ap (decoded codec.decode_state) s, same)
      ]

  write_state-Applies :
      (c : Calls) (fn : Dict Record → Dict Record)
      (keeps : (rs : Dict Record) → AllText IsTextRecord rs → AllText IsTextRecord (fn rs))
      (d now : Disk)
      → now.state ≡ d.state
      → now.credentials ≡ d.credentials
      → Applies codec fn d (write_state codec c (fn (records_of codec d)) now)
  unfolding write_state
  write_state-Applies c fn keeps d now s t =
      elim (Option-cases (codec.encode_state (fn (records_of codec d)))) [
        | inl n ↦
            rw (n, write_state)
              (ap (decoded codec.decode_state) s, ap (decoded codec.decode_credentials) t)
        | inr (content, e) ↦
            rw (e, write_state) (wrote_state-Applies c fn keeps d now content e s t)
      ]

  write_read-Applies :
      (c : Calls) (fn : Dict Record → Dict Record)
      (keeps : (rs : Dict Record) → AllText IsTextRecord rs → AllText IsTextRecord (fn rs))
      (d : Disk) (r : Disk × Answer (Dict Record))
      → Reads codec d r
      → Applies codec fn d (write_read codec c fn r)
  unfolding write_read
  write_read-Applies c fn keeps d (d', broke e) h =
      (ap (records_of codec) h, ap (tokens_of codec) h)
  write_read-Applies c fn keeps d (d', got records) (e, (s, t)) =
      subst (λ x. Applies codec fn d (write_state codec c (fn x) d')) (sym e)
        (write_state-Applies c fn keeps d d' s t)

  pub mutate-Applies :
      (c : Calls) (fn : Dict Record → Dict Record)
      (keeps : (rs : Dict Record) → AllText IsTextRecord rs → AllText IsTextRecord (fn rs))
      (d : Disk)
      → Applies codec fn d (mutate codec c fn d)
  unfolding mutate
  mutate-Applies c fn keeps d =
      let rest = write_read codec c fn (read_state codec c d) in
      let unlocked : Disk × Option StoreError = (d, some lock_failed) in
      if_both (Applies codec fn d) (not c.mkdir_all) (d, some mkdir_failed)
        (if not c.lock then unlocked else rest) (refl, refl)
        (if_both (Applies codec fn d) (not c.lock) unlocked rest (refl, refl)
          (write_read-Applies c fn keeps d (read_state codec c d) (read_state-Reads codec c d)))

  wrote_credentials-Applies :
      (c : Calls) (fn : Dict Str → Dict Str)
      (keeps : (ts : Dict Str) → AllText IsText ts → AllText IsText (fn ts)) (d : Disk)
      (content : Str)
      → codec.encode_credentials (fn (tokens_of codec d)) ≡ some content
      → AppliesToTokens codec fn d
          (wrote_credentials d (write_atomic c.writes d.credentials content))
  unfolding wrote_credentials
  wrote_credentials-Applies c fn keeps d content e =
      let tokens = fn (tokens_of codec d) in
      elim (write_atomic-cases c.writes d.credentials content) [
        | inl w ↦
            subst (λ p. AppliesToTokens codec fn d (wrote_credentials d p)) (sym w)
              (
                written codec.decode_credentials content tokens (
                    back.credentials tokens content
                      (keeps (tokens_of codec d) (tokens_of-AllText d)) e),
                refl,
              )
        | inr w ↦
            subst (λ p. AppliesToTokens codec fn d (wrote_credentials d p)) (sym w) (refl, refl)
      ]

  write_credentials-Applies :
      (c : Calls) (fn : Dict Str → Dict Str)
      (keeps : (ts : Dict Str) → AllText IsText ts → AllText IsText (fn ts)) (d : Disk)
      (a : Answer (Dict Str))
      → (a ≡ got (tokens_of codec d)) ⊎ ((e : StoreError) × (a ≡ broke e))
      → AppliesToTokens codec fn d (write_credentials codec c fn d a)
  unfolding write_credentials
  write_credentials-Applies c fn keeps d a (inr (x, e)) = rw (e, write_credentials) (refl, refl)
  write_credentials-Applies c fn keeps d a (inl e) =
      elim (Option-cases (codec.encode_credentials (fn (tokens_of codec d)))) [
        | inl n ↦ rw (e, n, write_credentials) (refl, refl)
        | inr (content, k) ↦
            rw (e, k, write_credentials) (wrote_credentials-Applies c fn keeps d content k)
      ]

  opened_credentials-cases :
      (o : Option Str)
      → (opened_credentials codec o ≡ got (decoded codec.decode_credentials o))
        ⊎ ((e : StoreError) × (opened_credentials codec o ≡ broke e))
  unfolding opened_credentials parsed_credentials decoded
  opened_credentials-cases none = inl refl
  opened_credentials-cases (some content) = elim (Option-cases (codec.decode_credentials content)) [
    | inl n ↦ inr (decode_failed, rw (n, opened_credentials) refl)
    | inr (tokens, k) ↦ inl (rw (k, opened_credentials, decoded) refl)
  ]

  pub read_credentials-cases :
      (c : Calls) (d : Disk)
      → (read_credentials codec c d ≡ got (tokens_of codec d))
        ⊎ ((e : StoreError) × (read_credentials codec c d ≡ broke e))
  unfolding read_credentials
  read_credentials-cases c d = elim (Bool-cases c.read_file) [
    | inr f ↦ inr (read_failed, rw (f, read_credentials) refl)
    | inl t ↦ rw (t, read_credentials) (opened_credentials-cases d.credentials)
  ]

  pub mutate_credentials-Applies :
      (c : Calls) (fn : Dict Str → Dict Str)
      (keeps : (ts : Dict Str) → AllText IsText ts → AllText IsText (fn ts)) (d : Disk)
      → AppliesToTokens codec fn d (mutate_credentials codec c fn d)
  unfolding mutate_credentials
  mutate_credentials-Applies c fn keeps d =
      let rest = write_credentials codec c fn d (read_credentials codec c d) in
      let unlocked : Disk × Option StoreError = (d, some lock_failed) in
      if_both (AppliesToTokens codec fn d) (not c.mkdir_all) (d, some mkdir_failed)
        (if not c.lock then unlocked else rest) (refl, refl)
        (if_both (AppliesToTokens codec fn d) (not c.lock) unlocked rest (refl, refl)
          (write_credentials-Applies c fn keeps d (read_credentials codec c d)
            (read_credentials-cases c d)))
