-- ===== src/Examples/DemoRuns.antt =====
-- internal/server/demo.go, run.
use datafog.Prelude.{String, true, false, ◌≡◌, ◌≢◌, ◌⊎◌, refl, none, some, List, [], eq_iff}
use datafog.Strings.{ascii_tables, Bytes}
use datafog.Strings.Path.{base, clean, contains_slash}
use datafog.Strings.Path.Joined.{IsName}
use datafog.Models.{ScanFinding}
use datafog.Shim.Gate.{Reader, Writer}
use datafog.Server.Demo.{
  DemoHandler, DemoWriteRequest, handle_write_file, handle_read_file, handle_seed,
}
use datafog.Server.Sandbox.{touches_only, demo_stays_in_sandbox}
use datafog.Examples.{zero_digest, sample_text}
use datafog.Examples.ShimRuns.{redacting}

abbrev handler : DemoHandler
handler = record { gate = redacting; sandbox_dir = "/tmp/datafog-demo-1"; demo_html = [] }

abbrev scanner : Bytes → List ScanFinding
scanner bytes = []

abbrev bytes_of : String → Bytes
bytes_of text = sample_text

abbrev reader : Reader
reader path = (some sample_text, none)

abbrev writer : Writer
writer path bytes perm = none

abbrev request : DemoWriteRequest
request = record { filename = "../../etc/notes.txt"; content = "me@x.io" }

abbrev tmp_dir : String
tmp_dir = "/tmp"

tmp_clean : clean tmp_dir ≡ tmp_dir
unfolding clean
tmp_clean = refl

below_root : tmp_dir ≢ "/"
below_root e = cc ((eq_iff tmp_dir "/").1 e)

sandbox-IsName : IsName "datafog-demo-1"
unfolding IsName contains_slash
sandbox-IsName = (refl, refl, refl, refl)

sandbox_example :
    ((base request.filename ≡ "/") ⊎ (contains_slash (base request.filename) ≡ false))
    × (touches_only "/tmp/datafog-demo-1/notes.txt"
          (handle_write_file ⦃u = ascii_tables⦄ ⦃d = zero_digest⦄ scanner bytes_of 5 handler reader
            "POST"
            (some request)).trace
        ≡ true)
    × (touches_only "/tmp/datafog-demo-1/notes.txt"
          (handle_read_file ⦃u = ascii_tables⦄ ⦃d = zero_digest⦄ scanner bytes_of 5 handler "POST"
            (some request.filename)).trace
        ≡ true)
    × (touches_only "/tmp/datafog-demo-1/notes.txt"
          (handle_seed ⦃u = ascii_tables⦄ ⦃d = zero_digest⦄ scanner bytes_of 5 handler writer "POST"
            (some request)).trace
        ≡ true)
unfolding base
sandbox_example =
    demo_stays_in_sandbox ⦃u = ascii_tables⦄ ⦃d = zero_digest⦄ scanner bytes_of 5 handler reader
      writer "POST" request tmp_dir "datafog-demo-1" refl tmp_clean refl below_root sandbox-IsName
