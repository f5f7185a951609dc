-- ===== src/Tests/Pages.antt =====
-- Runs of the view and the raw services, at a manifest of four files.
use mdfly.Common.{
  length, take, All, Str, codes, str_eq, has_prefix-append, pos, ℕ, zero, suc, ◌≡◌, refl, ◌↔◌, inr,
  true, false, Option, none, some, [], ◌∷◌, ◌++◌, arith,
}
use mdfly.Common.Dict.{lookup, keys}
use mdfly.Common.Paths.{clean, rel}
use mdfly.FileTree.Classify.{file, classify}
use mdfly.Httpx.{ok, err, not_found}
use mdfly.Manifest.Build.{Manifest, ManifestFile}
use mdfly.Manifest.NestedKey.{nested_key, repeat}
use mdfly.Raw.Classify.{classify_raw, octet_type, peek_bytes, inline_types, is_binary}
use mdfly.Raw.Classify.Laws.{text_cut_in_character, is_ascii}
use mdfly.Raw.Open.{Stream, File, open_in, raw_key}
use mdfly.Raw.Open.Laws.{IsAnswer, open_in-IsAnswer}
use mdfly.Raw.Handler.{if_none_match, write_raw_result}
use mdfly.Raw.Handler.Laws.{IsGuarded, headers_of, raw_answer-IsGuarded, StartsWithType}
use mdfly.View.Address.{slug_page_url}
use mdfly.View.Resolver.{page_resolver}
use mdfly.View.Service.{Bundle, Renderers, render}
use mdfly.View.Pages.Laws.{view_file_iff_raw}
use mdfly.Manifest.Keys.{ext_from_path}

abbrev pub slug : Str
slug = codes "abcd2345"

abbrev drawing : Str
drawing = codes "img/drawing.svg"

abbrev pub above : Str
above = codes "../shared/notes.md"

abbrev site : Manifest
site = record {
  root_path = codes "README.md";
  project_root = codes "/home/me/site";
  files_by_path =
      (codes "README.md", record { hash = codes "aa"; size = pos 10 })
      ∷ (drawing, record { hash = codes "bb"; size = pos 20 })
      ∷ (above, record { hash = codes "cc"; size = pos 30 })
      ∷ (codes "docs/paper.pdf", record { hash = codes "dd"; size = pos 40 })
      ∷ [];
}

abbrev streams : Str → Option Stream
streams key = some (record { bytes = codes "%PDF"; breaks = false })

abbrev media_type : Str → Str → Str
media_type t name = t ++ (codes "; filename=" ++ name)

media_type-StartsWithType : StartsWithType media_type
media_type-StartsWithType name =
    inr (has_prefix-append (codes "attachment") (codes "; filename=" ++ name))

above_key : nested_key (codes "/shared/notes.md") (codes "1") ≡ some above
unfolding nested_key
above_key = refl

nested_key_too_high : nested_key (codes "notes.md") (codes "17") ≡ none
unfolding nested_key
nested_key_too_high = refl

clean_dots : clean (codes "/a/./b/../../c//d") ≡ codes "/c/d"
unfolding clean
clean_dots = refl

rel_up : rel (codes "/home/me/site") (codes "/home/me/shared/x.md") ≡ some (codes "../shared/x.md")
unfolding rel
rel_up = refl

page_url_above : slug_page_url slug above ≡ codes "/abcd2345/shared/notes.md?up=1"
unfolding slug_page_url
page_url_above = refl

resolver_above :
    page_resolver (codes "https://cdn") slug site (codes "docs") (codes "../../shared/notes.md#top")
    ≡ some (codes "/abcd2345/shared/notes.md?up=1#top")
unfolding page_resolver
resolver_above = refl

resolver_asset :
    page_resolver (codes "https://cdn") slug site (codes ".") (codes "img/drawing.svg?v=1")
    ≡ some (codes "https://cdn/documents/abcd2345/bb.svg?v=1")
unfolding page_resolver
resolver_asset = refl

abbrev paper : File
paper = record {
  content = record { bytes = codes "%PDF"; breaks = false };
  content_type = codes "application/pdf";
  disposition = codes "attachment; filename=paper.pdf";
  etag = codes "dd";
  size = pos 40;
}

open_paper : open_in streams media_type slug site (codes "docs/paper.pdf") [] ≡ ok paper
unfolding open_in
open_paper = refl

open_folder : open_in streams media_type slug site (codes "docs") [] ≡ err (not_found "not found")
unfolding open_in
open_folder = refl

open_in-IsAnswer_example :
    IsAnswer streams media_type slug site
      (codes "docs")
      []
      (open_in streams media_type slug site (codes "docs") [])
open_in-IsAnswer_example = open_in-IsAnswer streams media_type slug site (codes "docs") []

raw_answer-IsGuarded_example : IsGuarded paper (headers_of (write_raw_result [] (ok paper)))
raw_answer-IsGuarded_example =
    raw_answer-IsGuarded streams media_type media_type-StartsWithType slug site
      (codes "docs/paper.pdf") [] [] {opened = paper} open_paper

matching_tag : if_none_match (codes "W/\"aa\", \"dd\"") (codes "\"dd\"") ≡ true
unfolding if_none_match
matching_tag = refl

view_file_iff_raw_example : ((classify (keys site.files_by_path) drawing).kind ≡ file) ↔ (
    (k : Str) × ((f : ManifestFile) × ((raw_key site (codes "/img/drawing.svg") [] ≡ some k)
        × (lookup k site.files_by_path ≡ some f))))
unfolding nested_key
view_file_iff_raw_example =
    view_file_iff_raw site (codes "/img/drawing.svg") [] {key = drawing} refl

abbrev plain_bytes : ℕ → Str
plain_bytes n = repeat n (codes "a")

plain_bytes-ascii : (n : ℕ) → All (λ c. is_ascii c ≡ true) (plain_bytes n)
unfolding repeat
plain_bytes-ascii zero = tt
plain_bytes-ascii (suc n) = (refl, plain_bytes-ascii n)

length-plain_bytes : (n : ℕ) → length (plain_bytes n) ≡ n
unfolding repeat
length-plain_bytes zero = refl
length-plain_bytes (suc n) = omega (arith, length-plain_bytes n)

abbrev words_of_text : Str
words_of_text = plain_bytes 511 ++ (195 ∷ 169 ∷ codes " is text")

text_cut_in_character_example :
    (is_binary words_of_text ≡ false)
    × (classify_raw (codes "notes.txt") (take peek_bytes words_of_text) ≡ (octet_type, true))
unfolding lookup ext_from_path inline_types str_eq is_binary
text_cut_in_character_example =
    text_cut_in_character (codes "notes.txt") (plain_bytes 511) (codes " is text") refl refl
      (plain_bytes-ascii 511) (length-plain_bytes 511) refl

-- A store without blobs: what needs none is shown.
abbrev no_blobs : Renderers
no_blobs = record {
  get_blob = λ key. none;
  render_refs = λ content resolve. none;
  highlight_file = λ name content. none;
  page_html = λ page. some page.title;
  css_url = codes "/s.css";
  js_url = codes "/s.js";
  public_base = codes "https://cdn";
}

abbrev site_bundle : Bundle
site_bundle = record { manifest = site; updated_at = 7 }

drawing_shown : render no_blobs slug site_bundle drawing ≡ ok (codes "drawing.svg")
unfolding render
drawing_shown = refl
