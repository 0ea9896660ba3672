-- ===== src/Files.antt =====
-- The routes that send files, routes/fileServer.ts, routes/keyServer.ts, routes/logfileServer.ts
-- and routes/quarantineServer.ts, and the redirect of routes/redirect.ts, with the functions of
-- lib/insecurity.ts that they call. `path.resolve(directory, file)` stays the pair of its
-- arguments; a refusal is the status and the error that `next` is given.
pub mod Serving
pub mod Redirecting
use runc.Prelude.{
  String, Bool, true, false, not, ◌&&◌, ◌||◌, none, some, List, [], ◌∷◌, ◌===◌, if◌then◌else◌,
}
use runc.Prelude.Http.{Action, pure, modify, ◌>>=◌, ◌>>◌, Reply, send, refuse}
use runc.Prelude.Texts.{starts_with, contains, ends_with, before}
use runc.Auth.Text.{equals_ignoring_case}
use runc.Challenges.{Board, challenge_of, solve_if}

unfoldable pub cut_off_poison_null_byte : String → String
cut_off_poison_null_byte str = before str "%00"

abbrev pub check : String → Bool → Action Board (Unit {0})
check key criteria = modify (solve_if key criteria false)

-- `challenges[key].solved`
abbrev is_marked : Board → String → Bool
is_marked b key = elim (challenge_of key b) [ none ↦ false | some c ↦ c.solved ]

abbrev pub ends_with_allowlisted_file_type : String → Bool
ends_with_allowlisted_file_type param = ends_with param ".md" || ends_with param ".pdf"

unfoldable pub verify_successful_poison_null_byte_exploit : String → Action Board (Unit {0})
verify_successful_poison_null_byte_exploit file = do
  check "easterEggLevelOneChallenge" (equals_ignoring_case file "eastere.gg")
  check "forgottenDevBackupChallenge" (equals_ignoring_case file "package.json.bak")
  check "forgottenBackupChallenge" (equals_ignoring_case file "coupons_2013.md.bak")
  check "misplacedSignatureFileChallenge" (equals_ignoring_case file "suspicious_errors.yml")
  modify (λ b.
      solve_if "nullByteChallenge"
        (is_marked b "easterEggLevelOneChallenge"
          || is_marked b "forgottenDevBackupChallenge"
          || is_marked b "forgottenBackupChallenge"
          || is_marked b "misplacedSignatureFileChallenge"
          || equals_ignoring_case file "encrypt.pyc")
        false b)

unfoldable pub verify_file : String → Action Board (Reply (String × String))
unfolding verify_successful_poison_null_byte_exploit
verify_file file =
    if not (file === "")
      && (ends_with_allowlisted_file_type file || file === "incident-support.kdbx")
    then (do
      let cut = cut_off_poison_null_byte file
      check "directoryListingChallenge" (equals_ignoring_case cut "acquisitions.md")
      verify_successful_poison_null_byte_exploit cut
      pure (send 200 ("ftp/", cut)))
    else pure (refuse 403 "Only .md and .pdf files are allowed!")

unfoldable pub serve_public_files : String → Action Board (Reply (String × String))
unfolding verify_file
serve_public_files file =
    if not (contains file "/")
    then verify_file file
    else pure (refuse 403 "File names cannot contain forward slashes!")

abbrev served_from : String → String → Reply (String × String)
served_from directory file =
    if not (contains file "/")
    then send 200 (directory, file)
    else refuse 403 "File names cannot contain forward slashes!"

unfoldable pub serve_key_files : String → Reply (String × String)
serve_key_files file = served_from "encryptionkeys/" file

unfoldable pub serve_log_files : String → Reply (String × String)
serve_log_files file = served_from "logs/" file

unfoldable pub serve_quarantine_files : String → Reply (String × String)
serve_quarantine_files file = served_from "ftp/quarantine/" file

abbrev pub redirect_allowlist : List String
redirect_allowlist =
    "https://github.com/juice-shop/juice-shop"
    ∷ "https://blockchain.info/address/1AbKfgvw9psQ41NbLi8kufDQTezwG8DRZm"
    ∷ "https://explorer.dash.org/address/Xr556RzuwX6hg5EGpkybbv5RanJoZN17kW"
    ∷ "https://etherscan.io/address/0x0f933ab9fcaaa782d0279c300d73750e1311eae6"
    ∷ "http://shop.spreadshirt.com/juiceshop" ∷ "http://shop.spreadshirt.de/juiceshop"
    ∷ "https://www.stickeryou.com/products/owasp-juice-shop/794" ∷ "http://leanpub.com/juice-shop"
    ∷ []

-- `allowed = allowed || url.includes(allowedUrl)` over the list
abbrev pub allowed_by : List String → String → Bool → Bool
allowed_by [] url allowed = allowed
allowed_by (a ∷ as') url allowed = allowed_by as' url (allowed || contains url a)

unfoldable pub is_redirect_allowed : String → Bool
is_redirect_allowed url = allowed_by redirect_allowlist url false

abbrev pub unintended_by : List String → String → Bool → Bool
unintended_by [] to_url unintended = unintended
unintended_by (a ∷ as') to_url unintended =
    unintended_by as' to_url (unintended && not (starts_with to_url a))

unfoldable pub is_unintended_redirect : String → Bool
is_unintended_redirect to_url = unintended_by redirect_allowlist to_url true

unfoldable pub perform_redirect : String → Action Board (Reply String)
perform_redirect to_url =
    if is_redirect_allowed to_url
    then (do
      check "redirectCryptoCurrencyChallenge" (
          to_url === "https://explorer.dash.org/address/Xr556RzuwX6hg5EGpkybbv5RanJoZN17kW"
          || to_url === "https://blockchain.info/address/1AbKfgvw9psQ41NbLi8kufDQTezwG8DRZm"
          || to_url === "https://etherscan.io/address/0x0f933ab9fcaaa782d0279c300d73750e1311eae6")
      check "redirectChallenge" (is_unintended_redirect to_url)
      pure (send 302 to_url))
    else pure (refuse 406 "Unrecognized target URL for redirect")
