-- ===== src/Pci/Tests.antt =====
-- The PCI bus of src/drivers/pci.c at a concrete configuration space.
use hz_os.Base.{◌≡◌, ◌==◌, if◌then◌else◌, take, arith, refl}
use hz_os.Pci.{Config, config_address, pci_config_read_word, pci_config_write_word, pci_init}
use hz_os.Pci.Words.{written, write_word-read_word}
use hz_os.Pci.Scan.{all_answering, pci_init-functions}

-- One network card at device 3 of bus 0, whose first double word holds its vendor and its number.
abbrev one_card : Config
one_card a =
    if a == 0x80001800
    then 0x813910EC
    else if a == 0x80001808
    then 0x02000010
    else if a == 0x8000180C
    then 0
    else 0xFFFFFFFF

card_address : config_address 0 3 0 0 ≡ 0x80001800
unfolding config_address
card_address = refl

card_vendor : pci_config_read_word one_card 0 3 0 2 ≡ 0x8139
unfolding pci_config_read_word config_address
card_vendor = refl

write_word-read_word_example :
    let after = written one_card (pci_config_write_word one_card 0 3 0 4 7) in
    (pci_config_read_word after 0 3 0 4 ≡ 7)
    × (pci_config_read_word after 0 3 0 6 ≡ pci_config_read_word one_card 0 3 0 6)
write_word-read_word_example =
    write_word-read_word one_card 0 3 0 4 7 0 3 0 6 (omega arith) (omega arith) (omega arith)
      (omega arith) (omega arith) (omega arith) (omega arith) (λ same e. absurd (omega arith))

pci_init-functions_example : pci_init one_card ≡ take 256 (all_answering one_card 8 0)
pci_init-functions_example = pci_init-functions one_card
