-- ===== src/Strings/Tests.antt =====
-- The functions of src/lib/string.c on concrete strings.
use hz_os.Base.{◌≡◌, ◌↔◌, take, arith}
use hz_os.Base.Int.{pos}
use hz_os.Base.Text.{codes}
use hz_os.Strings.{strncmp}
use hz_os.Strings.Compare.{strncmp_iff}

strncmp_iff_example :
    (strncmp (codes "sda1") (codes "sdb") 2 ≡ pos 0)
    ↔ (take 2 (codes "sda1") ≡ take 2 (codes "sdb"))
strncmp_iff_example = strncmp_iff 2 (codes "sda1") (codes "sdb") (ground arith) (ground arith)
