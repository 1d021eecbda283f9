-- ===== src/Codes/Languages.antt =====
-- gui/rds_codes.c: the table `li_codes`, in two parts.
use jmpxrds.Base.{List, [], ◌∷◌, ◌++◌}
use jmpxrds.Codes.Map.{CodeMap, entry}

abbrev pub li_codes_1 : List CodeMap
li_codes_1 =
    entry 0x0 "Unknown/NA"
    ∷ entry 0x1 "Albanian"
    ∷ entry 0x2 "Breton"
    ∷ entry 0x3 "Catalan"
    ∷ entry 0x4 "Croatian"
    ∷ entry 0x5 "Welsh"
    ∷ entry 0x6 "Czech"
    ∷ entry 0x7 "Danish"
    ∷ entry 0x8 "German"
    ∷ entry 0x9 "English"
    ∷ entry 0xA "Spanish"
    ∷ entry 0xB "Esperando"
    ∷ entry 0xC "Estonian"
    ∷ entry 0xD "Basque"
    ∷ entry 0xE "Faroese"
    ∷ entry 0xF "French"
    ∷ entry 0x10 "Frisian"
    ∷ entry 0x11 "Irish"
    ∷ entry 0x12 "Gaelic"
    ∷ entry 0x13 "Galician"
    ∷ entry 0x14 "Icelandic"
    ∷ entry 0x15 "Italian"
    ∷ entry 0x16 "Lappish"
    ∷ entry 0x17 "Latin"
    ∷ entry 0x18 "Lativian"
    ∷ entry 0x19 "Lusembourgian"
    ∷ entry 0x1A "Lithuanian"
    ∷ entry 0x1B "Hungarian"
    ∷ entry 0x1C "Malteze"
    ∷ entry 0x1D "Dutch"
    ∷ entry 0x1E "Norwegian"
    ∷ entry 0x1F "Occitan"
    ∷ entry 0x20 "Polish"
    ∷ entry 0x21 "Portuguese"
    ∷ entry 0x22 "Romanian"
    ∷ entry 0x23 "Romansh"
    ∷ entry 0x24 "Serbian"
    ∷ entry 0x25 "Slovak"
    ∷ entry 0x26 "Slovene"
    ∷ entry 0x27 "Finnish"
    ∷ entry 0x28 "Swedish"
    ∷ entry 0x29 "Turkish"
    ∷ entry 0x2A "Flemish"
    ∷ entry 0x2B "Walloon"
    ∷ entry 0x7F "Amharic"
    ∷ entry 0x7E "Arabic"
    ∷ entry 0x7D "Armenian"
    ∷ entry 0x7C "Assamese"
    ∷ entry 0x7B "Azerbijani"
    ∷ entry 0x7A "Bambora"
    ∷ entry 0x79 "Belorussian"
    ∷ entry 0x78 "Bengali"
    ∷ []

abbrev pub li_codes_2 : List CodeMap
li_codes_2 =
    entry 0x77 "Bulgarian"
    ∷ entry 0x76 "Burmese"
    ∷ entry 0x75 "Chinese"
    ∷ entry 0x74 "Churash"
    ∷ entry 0x73 "Dari"
    ∷ entry 0x72 "Funali"
    ∷ entry 0x71 "Georgian"
    ∷ entry 0x70 "Greek"
    ∷ entry 0x6F "Gujurati"
    ∷ entry 0x6E "Gurani"
    ∷ entry 0x6D "Hausa"
    ∷ entry 0x6C "Hebrew"
    ∷ entry 0x6B "Hindi"
    ∷ entry 0x6A "Indonesian"
    ∷ entry 0x69 "Japanese"
    ∷ entry 0x68 "Kannada"
    ∷ entry 0x67 "Kazakh"
    ∷ entry 0x66 "Khmer"
    ∷ entry 0x65 "Korean"
    ∷ entry 0x64 "Laotian"
    ∷ entry 0x63 "Macedonian"
    ∷ entry 0x62 "Malagasay"
    ∷ entry 0x61 "Malaysian"
    ∷ entry 0x60 "Moldavian"
    ∷ entry 0x5F "Marathi"
    ∷ entry 0x5E "Ndebele"
    ∷ entry 0x5D "Nepali"
    ∷ entry 0x5C "Oriya"
    ∷ entry 0x5B "Papamiento"
    ∷ entry 0x5A "Persian"
    ∷ entry 0x59 "Punjabi"
    ∷ entry 0x58 "Pushtu"
    ∷ entry 0x57 "Quechua"
    ∷ entry 0x56 "Russian"
    ∷ entry 0x55 "Ruthenian"
    ∷ entry 0x54 "Serbo-Croat"
    ∷ entry 0x53 "Shoma"
    ∷ entry 0x52 "Sinhalese"
    ∷ entry 0x51 "Somali"
    ∷ entry 0x50 "Sranan Tongo"
    ∷ entry 0x4F "Swahili"
    ∷ entry 0x4E "Tadzhik"
    ∷ entry 0x4D "Tamil"
    ∷ entry 0x4C "Tatar"
    ∷ entry 0x4B "Telugu"
    ∷ entry 0x4A "Thai"
    ∷ entry 0x49 "Ukranian"
    ∷ entry 0x48 "Urdu"
    ∷ entry 0x47 "Uzbek"
    ∷ entry 0x46 "Vietnamese"
    ∷ entry 0x45 "Zulu"
    ∷ entry 0x40 "Background sound / Clean feed"
    ∷ []

-- The whole table.
abbrev pub li_codes : List CodeMap
li_codes = li_codes_1 ++ li_codes_2
