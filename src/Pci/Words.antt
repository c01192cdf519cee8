-- ===== src/Pci/Words.antt =====
-- Words of the configuration space, pci_config_read_word and pci_config_write_word of src/drivers/pci.c.
use hz_os.Base.{
  ℕ, ◌/◌, ◌<◌, ◌≡◌, ◌≢◌, ◌==◌, if◌then◌else◌, arith, refl, ap, sym, ◌∙◌, ==_of_ne, ℕ_discrete,
}
use hz_os.Pci.{
  Config, config_address, word_of, new_val, pci_config_read_word, pci_config_write_word,
}

-- Two different double words of the functions on the buses have different addresses.
pub address_injective :
    (b d f o b' d' f' o' : ℕ)
    → d < 32
    → f < 8
    → o < 256
    → d' < 32
    → f' < 8
    → o' < 256
    → config_address b d f o ≡ config_address b' d' f' o'
    → (b ≡ b') × (d ≡ d') × (f ≡ f') × (o / 4 ≡ o' / 4)
unfolding config_address
address_injective b d f o b' d' f' o' h1 h2 h3 h4 h5 h6 e =
    (omega arith, omega arith, omega arith, omega arith)

-- A configuration space after a write to one that keeps what is written.
abbrev pub written : Config → ℕ × ℕ → Config
written config (address, dword) a = if a == address then dword else config a

written_self :
    (config : Config) (address dword : ℕ) → written config (address, dword) address ≡ dword
written_self config address dword = ground arith

written_ne :
    (config : Config) (address dword a : ℕ)
    → a ≢ address
    → written config (address, dword) a ≡ config a
written_ne config address dword a ne = rw (==_of_ne a address ne) refl

word_of-new_val : (old o value : ℕ) → value < 65536 → word_of (new_val old o value) o ≡ value
word_of-new_val old o value h = ground arith

word_of-new_val_other :
    (old o o' value : ℕ)
    → o / 4 ≡ o' / 4
    → o / 2 ≢ o' / 2
    → word_of (new_val old o value) o' ≡ word_of old o'
word_of-new_val_other old o o' value e ne = ground arith

-- In a configuration space that keeps what is written, pci_config_read_word gives after
-- pci_config_write_word the word that was written, and for every other word, of the same double
-- word, the same function or another one, what it gave before.
pub write_word-read_word :
    (config : Config) (b d f o value b' d' f' o' : ℕ)
    → value < 65536
    → d < 32
    → f < 8
    → o < 256
    → d' < 32
    → f' < 8
    → o' < 256
    → ((b ≡ b') × (d ≡ d') × (f ≡ f') → o / 2 ≢ o' / 2)
    → let after = written config (pci_config_write_word config b d f o value) in
      (pci_config_read_word after b d f o ≡ value)
      × (pci_config_read_word after b' d' f' o' ≡ pci_config_read_word config b' d' f' o')
unfolding pci_config_read_word pci_config_write_word
write_word-read_word config b d f o value b' d' f' o' hv hd hf ho hd' hf' ho' other =
    let address = config_address b d f o in
    let there = config_address b' d' f' o' in
    let dword = new_val (config address) o value in
    (
      ap (λ w. word_of w o) (written_self config address dword)
          ∙ word_of-new_val (config address) o value hv,
      elim (ℕ_discrete there address) [
        | yes same ↦
            (let (eb, ed, ef, eo) =
                address_injective b d f o b' d' f' o' hd hf ho hd' hf' ho' (sym same) in
              ap (λ a. word_of (written config (address, dword) a) o') same
              ∙ ap (λ w. word_of w o') (written_self config address dword)
              ∙ word_of-new_val_other (config address) o o' value eo (other (eb, ed, ef))
              ∙ ap (λ a. word_of (config a) o') (sym same))
        | no ne ↦ ap (λ w. word_of w o') (written_ne config address dword there ne)
      ],
    )
