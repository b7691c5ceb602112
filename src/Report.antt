-- ===== src/Report.antt =====
-- internal/report/report.go: Build, the two documents of a certificate and their keys. `marshal` is
-- json.MarshalIndent and `execute` the template, which the libraries render.
use Prim.Native.String.{◌++◌}
use text.Mathlib.TextLemmas.{append_cancel_left}
use xiesg0915_work.Prelude.{
  ℕ, ◌+◌, ◌≡◌, ◌≢◌, sym, ap, ◌∙◌, ◌==◌, String, Option, none, some, List, [], ◌∷◌, arith,
}
use xiesg0915_work.Domain.Entities.{Time, Asset, Disk, ErasureRun, Certificate, PassSpec}
use xiesg0915_work.Objects.{Bytes}

pub record FullReport : Type 0 where
  pub schema : String
  pub certificate : Certificate
  pub asset : Asset
  pub disk : Disk
  pub runs : List ErasureRun
  pub generated_at : Time

pub record Renderer : Type 0 where
  pub marshal : FullReport → Option Bytes
  pub execute : FullReport → (json : Bytes) → Option Bytes

pub record Documents : Type 0 where
  pub json : Bytes
  pub html : Bytes
  pub report_key : String
  pub cert_key : String

abbrev full_report : Time → Certificate → Asset → Disk → List ErasureRun → FullReport
full_report now cert asset disk runs = record {
  schema = "idc-erasure-report/v1";
  certificate = cert;
  asset = asset;
  disk = disk;
  runs = runs;
  generated_at = now;
}

-- Build; `none` is its error.
unfoldable pub build :
    Renderer → Time → Certificate → Asset → Disk → List ErasureRun → Option Documents
build r now cert asset disk runs =
    let rep = full_report now cert asset disk runs in
    elim (r.marshal rep) [
      | none ↦ none
      | some json ↦ elim (r.execute rep json) [
        | none ↦ none
        | some html ↦ some (record {
          json = json;
          html = html;
          report_key = "reports/" ++ (cert.cert_no ++ ".json");
          cert_key = "reports/" ++ (cert.cert_no ++ ".html");
        })
      ]
    ]

-- The function `passes` of the template; `decimal` is "%d".
unfoldable pub pass_names : (decimal : ℕ → String) → List PassSpec → String
pass_names decimal [] = ""
pass_names decimal (p ∷ []) = decimal (p.index + 1) ++ (":" ++ p.pattern)
pass_names decimal (p ∷ q ∷ ps) =
    decimal (p.index + 1) ++ (":" ++ (p.pattern ++ (", " ++ pass_names decimal (q ∷ ps))))

json_ne_html : ◌≢◌ {A = String} ".json" ".html"
json_ne_html e = cc (ap (λ s. s == ".json") e)

-- The documents of a certificate have different keys, whatever its number.
build-keys :
    (r : Renderer) (now : Time) (cert : Certificate) (asset : Asset) (disk : Disk)
    (runs : List ErasureRun) (d : Documents)
    → build r now cert asset disk runs ≡ some d
    → d.report_key ≢ d.cert_key
unfolding build
build-keys r now cert asset disk runs d h same =
    let named : (d.report_key ≡ "reports/" ++ (cert.cert_no ++ ".json"))
        × (d.cert_key ≡ "reports/" ++ (cert.cert_no ++ ".html")) =
      ground arith in
    json_ne_html (
      append_cancel_left cert.cert_no ".json" ".html" (
        append_cancel_left "reports/" (cert.cert_no ++ ".json") (cert.cert_no ++ ".html")
          (sym named.0 ∙ same ∙ named.1)))
