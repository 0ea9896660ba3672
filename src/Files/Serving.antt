-- ===== src/Files/Serving.antt =====
-- routes/fileServer.ts: which files are sent.
use runc.Prelude.{String, ◌≡◌, refl, ap, true, false, ◌||◌, arith, ◌===◌}
use runc.Prelude.Http.{ok, send}
use Prim.Native.Char.{Char}
use Prim.Native.String
use Prim.Native.String.append
use runc.Prelude.Texts.{
  starts_with, contains, ends_with, before, contains-before, ends_with-append, cons-ne-empty,
}
use runc.Challenges.{Board}
use runc.Files.{
  cut_off_poison_null_byte, ends_with_allowlisted_file_type, verify_file, serve_public_files,
}

-- What is sent was asked for by a name without a slash that ends in .md or .pdf, or by the one
-- exception, and is that name up to a poison null byte, of which none is left.
pub serve_public_files-sent :
    (file dir sent : String) (b : Board)
    → (serve_public_files file b).0 ≡ ok (send 200 (dir, sent))
    → (contains file "/" ≡ false)
      × ((ends_with_allowlisted_file_type file || file === "incident-support.kdbx") ≡ true)
      × (dir ≡ "ftp/")
      × (sent ≡ cut_off_poison_null_byte file)
      × (contains sent "%00" ≡ false)
unfolding serve_public_files verify_file cut_off_poison_null_byte
serve_public_files-sent file dir sent b h =
    let same : sent ≡ before file "%00" = ground arith in
    (ground arith, ground arith, ground arith, same, rw same (contains-before file "%00"))

abbrev pub poison : String
poison = "%00.md"

starts-append :
    (c : Char) (s : String)
    → starts_with (String.◌∷◌ c (String.◌++◌ s poison)) "%00" ≡ starts_with (String.◌∷◌ c s) "%00"
unfolding starts_with
starts-append c String.[] = ground arith
starts-append c (String.◌∷◌ d String.[]) = rw (append.cons d String.[] poison) (ground arith)
starts-append c (String.◌∷◌ d (String.◌∷◌ f s)) =
    rw (append.cons d (String.◌∷◌ f s) poison) (rw (append.cons f s poison) refl)

before-append : (s : String) → contains s "%00" ≡ false → before (String.◌++◌ s poison) "%00" ≡ s
unfolding before contains
before-append String.[] h = unfold starts_with in refl
before-append (String.◌∷◌ c s) h =
    let clean : starts_with (String.◌∷◌ c s) "%00" ≡ false = ground arith in
    let rest : contains s "%00" ≡ false = ground arith in
    rw (append.cons c s poison)
      (rw (starts-append c s) (rw clean (ap (String.◌∷◌ c) (before-append s rest))))

slash-append : (s : String) → contains (String.◌++◌ s poison) "/" ≡ contains s "/"
unfolding contains starts_with
slash-append String.[] = refl
slash-append (String.◌∷◌ c s) = rw (append.cons c s poison) (ground (arith, slash-append s))

append-ne-empty : (s : String) → (String.◌++◌ s poison === "") ≡ false
append-ne-empty String.[] = refl
append-ne-empty (String.◌∷◌ c s) =
    rw (append.cons c s poison) (cons-ne-empty c (String.◌++◌ s poison))

poison_is_md : ends_with poison ".md" ≡ true
unfolding ends_with
poison_is_md = refl

-- The guard on the file type can be evaded: any name without a slash is sent, whatever its type, if
-- it is asked for with a poison null byte and .md after it.
pub serve_public_files-poisoned :
    (name : String) (b : Board)
    → contains name "/" ≡ false
    → contains name "%00" ≡ false
    → (serve_public_files (String.◌++◌ name poison) b).0 ≡ ok (send 200 ("ftp/", name))
unfolding serve_public_files verify_file cut_off_poison_null_byte
serve_public_files-poisoned name b h k =
    let slash : contains (String.◌++◌ name poison) "/" ≡ false = rw (slash-append name) h in
    let md : ends_with (String.◌++◌ name poison) ".md" ≡ true =
      ends_with-append name "%" "00.md" ".md" poison_is_md in
    let full : (String.◌++◌ name poison === "") ≡ false = append-ne-empty name in
    let cut : before (String.◌++◌ name poison) "%00" ≡ name = before-append name k in
    rw (slash, md, full) (rw cut refl)
