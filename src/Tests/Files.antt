-- ===== src/Tests/Files.antt =====
-- routes/fileServer.ts on concrete inputs.
use runc.Prelude.{String, ◌≡◌, refl, true, false, ◌||◌, ◌===◌}
use runc.Prelude.Http.{ok, send}
use runc.Prelude.Texts.{contains, before, starts_with, ends_with}
use runc.Tests.Auth.{empty_board}
use runc.Files.{
  cut_off_poison_null_byte, ends_with_allowlisted_file_type, verify_file, serve_public_files,
}
use runc.Files.Serving.{serve_public_files-sent}

abbrev legal : String
legal = "legal.md"

legal_sent : (serve_public_files legal empty_board).0 ≡ ok (send 200 ("ftp/", legal))
unfolding serve_public_files verify_file cut_off_poison_null_byte contains starts_with ends_with
    before
legal_sent = refl

serve_public_files-sent_example :
    (contains legal "/" ≡ false)
    × ((ends_with_allowlisted_file_type legal || legal === "incident-support.kdbx") ≡ true)
    × (◌≡◌ {A = String} "ftp/" "ftp/")
    × (legal ≡ cut_off_poison_null_byte legal)
    × (contains legal "%00" ≡ false)
serve_public_files-sent_example = serve_public_files-sent legal "ftp/" legal empty_board legal_sent
