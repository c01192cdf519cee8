-- ===== src/Print/Tests.antt =====
-- kprintf of src/lib/printf.c on concrete formats.
use hz_os.Base.{◌≡◌, [], ◌∷◌, some, refl}
use hz_os.Base.Int.{negsuc}
use hz_os.Base.Text.{codes}
use hz_os.Print.{word, kprintf, print_from, convert, print_dec, print_hex, nibbles}

-- A width is not read: no value is printed.
no_width : kprintf (codes "%02x") (word 255 ∷ []) ≡ some (codes "%02x")
unfolding kprintf print_from convert
no_width = refl

hex_value : kprintf (codes "%x") (word 0xEF53 ∷ []) ≡ some (codes "0x0000EF53")
unfolding kprintf print_from convert print_hex nibbles
hex_value = refl

least_int : print_dec (negsuc 2147483647) ≡ codes "-"
unfolding print_dec
least_int = refl
