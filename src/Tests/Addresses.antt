-- ===== src/Tests/Addresses.antt =====
-- A router, and the address of a page at it.
use mathlib.Core.List.{append_assoc}
use mdfly.Common.{
  All, Str, codes, is_empty, cut_prefix, has_byte, trim, ℕ, ◌≡◌, refl, ◌∙◌, true, false, Option,
  none, some, [], ◌∷◌, ◌++◌, arith,
}
use mdfly.Common.Decimal.{itoa}
use mdfly.Common.Paths.{clean}
use mdfly.Common.Split.{cut, cut-at, cut-none}
use mdfly.Manifest.NestedKey.{nested_key}
use mdfly.Tests.Pages.{slug, above}
use mdfly.View.Address.{slug_page_url, split_up}
use mdfly.View.Address.Laws.{IsRoutable, is_alphanumeric, is_plain, slug_page_url-IsAsked}

-- A router for the pattern /{slug}/{path...}, with the query behind a question mark.
abbrev param_of : Option Str → Str
param_of none = []
param_of (some query) = elim (cut_prefix query (codes "up=")) [ none ↦ [] | some up ↦ up ]

abbrev routed_path : Str → Option Str → Option (Str × (Str × Str))
routed_path s none = none
routed_path s (some tail) = some (s, ((cut b'?' tail).0, param_of (cut b'?' tail).1))

abbrev routed_below : Option Str → Option (Str × (Str × Str))
routed_below none = none
routed_below (some below) = routed_path (cut b'/' below).0 (cut b'/' below).1

abbrev routed : Str → Option (Str × (Str × Str))
routed url = routed_below (cut_prefix url (codes "/"))

alphanumeric-no_slash : (s : Str) → All (λ c. is_alphanumeric c ≡ true) s → has_byte b'/' s ≡ false
unfolding has_byte
alphanumeric-no_slash [] h = refl
alphanumeric-no_slash (c ∷ s) (h, hs) = ground (arith, alphanumeric-no_slash s hs)

plain-no_query : (s : Str) → All (λ c. is_plain c ≡ true) s → has_byte b'?' s ≡ false
unfolding has_byte
plain-no_query [] h = refl
plain-no_query (c ∷ s) (h, hs) = ground (arith, plain-no_query s hs)

routed-tail :
    (s tail : Str)
    → All (λ c. is_alphanumeric c ≡ true) s
    → routed ((codes "/" ++ (s ++ codes "/")) ++ tail) ≡ routed_path s (some tail)
unfolding cut_prefix
routed-tail s tail h =
    rw (append_assoc s (codes "/") tail, cut-at b'/' s tail (alphanumeric-no_slash s h)) refl

routed-path_only :
    (s rest : Str)
    → IsRoutable s rest
    → routed ((codes "/" ++ (s ++ codes "/")) ++ rest) ≡ some (s, (rest, []))
routed-path_only s rest (_, (_, (h, (plain, _)))) =
    routed-tail s rest h ∙ rw (cut-none b'?' rest (plain-no_query rest plain)) refl

routed-with_up :
    (s rest : Str) (n : ℕ)
    → IsRoutable s rest
    → routed ((codes "/" ++ (s ++ codes "/")) ++ (rest ++ (codes "?up=" ++ itoa n)))
      ≡ some (s, (rest, itoa n))
unfolding cut_prefix
routed-with_up s rest n (_, (_, (h, (plain, _)))) =
    routed-tail s (rest ++ (codes "?up=" ++ itoa n)) h
    ∙ rw (cut-at b'?' rest (codes "up=" ++ itoa n) (plain-no_query rest plain)) refl

above-IsRoutable : IsRoutable slug (split_up above).1
unfolding split_up clean
above-IsRoutable = (
  λ e. cc,
  (
    λ e. cc,
    (
      (refl, (refl, (refl, (refl, (refl, (refl, (refl, (refl, tt)))))))),
      (
        (
          refl,
          (
            refl,
            (
              refl,
              (
                refl,
                (
                  refl,
                  (
                    refl,
                    (refl, (refl, (refl, (refl, (refl, (refl, (refl, (refl, (refl, tt))))))))),
                  ),
                ),
              ),
            ),
          ),
        ),
        refl,
      ),
    ),
  ),
)

slug_page_url-IsAsked_example :
    (path : Str) × ((up : Str) × ((routed (slug_page_url slug above) ≡ some (slug, (path, up)))
        × (nested_key path up ≡ some above)))
unfolding trim is_empty split_up
slug_page_url-IsAsked_example =
    slug_page_url-IsAsked routed routed-path_only routed-with_up slug above above-IsRoutable
      (omega arith) refl refl
