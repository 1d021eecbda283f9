-- ===== src/Codes/Countries.antt =====
-- gui/rds_codes.c: the table `ctry_codes`, in four parts.
use jmpxrds.Base.{List, [], ◌∷◌, ◌++◌}
use jmpxrds.Codes.Map.{CodeMap, entry}

abbrev pub ctry_codes_1 : List CodeMap
ctry_codes_1 =
    entry 0x09E0 "Albania"
    ∷ entry 0x02E0 "Algeria"
    ∷ entry 0x03E0 "Andorra"
    ∷ entry 0x0AE4 "Armenia"
    ∷ entry 0x0AE0 "Austria"
    ∷ entry 0x0BE3 "Azerbaijan"
    ∷ entry 0x08E4 "Azores (Portugal)"
    ∷ entry 0x06E0 "Belgium"
    ∷ entry 0x0FE3 "Belarus"
    ∷ entry 0x0FE4 "Bosnia Herzegovina"
    ∷ entry 0x08E1 "Bulgaria"
    ∷ entry 0x0EE2 "Canaries (Spain)"
    ∷ entry 0x0CE3 "Croatia"
    ∷ entry 0x02E1 "Cyprus"
    ∷ entry 0x02E2 "Czech Republic"
    ∷ entry 0x09E1 "Denmark"
    ∷ entry 0x0FE0 "Egypt"
    ∷ entry 0x02E4 "Estonia"
    ∷ entry 0x09E1 "Faroe (Denmark)"
    ∷ entry 0x06E1 "Finland"
    ∷ entry 0x0FE1 "France"
    ∷ entry 0x0CE4 "Georgia"
    ∷ entry 0x0DE0 "Germany (East)"
    ∷ entry 0x01E0 "Germany (West)"
    ∷ entry 0x0AE1 "Gibraltar (United Kingdom)"
    ∷ entry 0x01E1 "Greece"
    ∷ entry 0x0BE0 "Hungary"
    ∷ entry 0x0AE2 "Iceland"
    ∷ entry 0x0BE1 "Iraq"
    ∷ entry 0x02E3 "Ireland"
    ∷ entry 0x04E0 "Israel"
    ∷ entry 0x05E0 "Italy"
    ∷ entry 0x05E1 "Jordan"
    ∷ entry 0x09E3 "Latvia"
    ∷ entry 0x0AE3 "Lebanon"
    ∷ entry 0x0DE1 "Libya"
    ∷ entry 0x09E2 "Liechtenstein"
    ∷ entry 0x0CE2 "Lithuania"
    ∷ entry 0x07E1 "Luxembourg"
    ∷ entry 0x04E3 "Macedonia"
    ∷ entry 0x08E4 "Madeira (Portugal)"
    ∷ entry 0x0CE0 "Malta"
    ∷ entry 0x01E4 "Moldova"
    ∷ entry 0x0BE2 "Monaco"
    ∷ entry 0x01E3 "Montenegro"
    ∷ entry 0x01E2 "Morocco"
    ∷ entry 0x08E3 "Netherlands"
    ∷ entry 0x0FE2 "Norway"
    ∷ entry 0x08E0 "Palestine"
    ∷ entry 0x03E2 "Poland"
    ∷ entry 0x08E4 "Portugal"
    ∷ entry 0x0EE1 "Romania"
    ∷ entry 0x07E0 "Russian Federation"
    ∷ entry 0x03E1 "San Marino"
    ∷ entry 0x0DE2 "Serbia"
    ∷ entry 0x05E2 "Slovakia"
    ∷ entry 0x09E4 "Slovenia"
    ∷ entry 0x0EE2 "Spain"
    ∷ entry 0x0EE3 "Sweden"
    ∷ entry 0x04E1 "Switzerland"
    ∷ []

abbrev pub ctry_codes_2 : List CodeMap
ctry_codes_2 =
    entry 0x06E2 "Syrian Arab Republic"
    ∷ entry 0x07E2 "Tunisia"
    ∷ entry 0x03E3 "Turkey"
    ∷ entry 0x06E4 "Ukraine"
    ∷ entry 0x0CE1 "United Kingdom"
    ∷ entry 0x04E2 "Vatican City State"
    ∷ entry 0x06D0 "Angola"
    ∷ entry 0x09D1 "Burundi"
    ∷ entry 0x0ED0 "Benin"
    ∷ entry 0x0BD0 "Burkina Faso"
    ∷ entry 0x0BD1 "Botswana"
    ∷ entry 0x01D0 "Cameroon"
    ∷ entry 0x06D1 "Cape Verde"
    ∷ entry 0x02D0 "Central African Republic"
    ∷ entry 0x09D2 "Chad"
    ∷ entry 0x0CD1 "Comoros"
    ∷ entry 0x0BD2 "Democratic Republic of Congo"
    ∷ entry 0x0CD0 "Congo"
    ∷ entry 0x0CD2 "Cote d'Ivoire"
    ∷ entry 0x03D0 "Djibouti"
    ∷ entry 0x07D0 "Equatorial Guinea"
    ∷ entry 0x0FD2 "Eritrea"
    ∷ entry 0x0ED1 "Ethiopia"
    ∷ entry 0x08D0 "Gabon"
    ∷ entry 0x08D1 "Gambia"
    ∷ entry 0x03D1 "Ghana"
    ∷ entry 0x0AD2 "Guinea-Bissau"
    ∷ entry 0x07D0 "Equatorial Guinea"
    ∷ entry 0x09D0 "Republic of Guinea"
    ∷ entry 0x06D2 "Kenya"
    ∷ entry 0x02D1 "Liberia"
    ∷ entry 0x06D3 "Lesotho"
    ∷ entry 0x0AD3 "Mauritius"
    ∷ entry 0x04D0 "Madagascar"
    ∷ entry 0x0FD0 "Malawi"
    ∷ entry 0x05D0 "Mali"
    ∷ entry 0x04D1 "Mauritania"
    ∷ entry 0x03D2 "Mozambique"
    ∷ entry 0x01D1 "Namibia"
    ∷ entry 0x08D2 "Niger"
    ∷ entry 0x0FD1 "Nigeria"
    ∷ entry 0x05D3 "Rwanda"
    ∷ entry 0x05D1 "Sao Tome & Principe"
    ∷ entry 0x08D3 "Seychelles"
    ∷ entry 0x07D1 "Senegal"
    ∷ entry 0x01D2 "Sierra Leone"
    ∷ entry 0x07D2 "Somalia"
    ∷ entry 0x0AD0 "South Africa"
    ∷ entry 0x0CD3 "Sudan"
    ∷ entry 0x05D2 "Swaziland"
    ∷ entry 0x0DD0 "Togo"
    ∷ entry 0x0DD1 "Tanzania"
    ∷ entry 0x04D2 "Uganda"
    ∷ entry 0x03D3 "Western Sahara"
    ∷ entry 0x0ED2 "Zambia"
    ∷ entry 0x02D2 "Zimbabwe"
    ∷ entry 0x01A2 "Anguilla"
    ∷ entry 0x02A2 "Antigua and Barbuda"
    ∷ entry 0x0AA2 "Argentina"
    ∷ entry 0x03A4 "Aruba"
    ∷ []

abbrev pub ctry_codes_3 : List CodeMap
ctry_codes_3 =
    entry 0x0FA2 "Bahamas"
    ∷ entry 0x05A2 "Barbados"
    ∷ entry 0x06A2 "Belize"
    ∷ entry 0x0CA2 "Bermuda"
    ∷ entry 0x01A3 "Bolivia"
    ∷ entry 0x0BA2 "Brazil"
    ∷ entry 0x0BA1 "Canada"
    ∷ entry 0x0CA1 "Canada"
    ∷ entry 0x0DA1 "Canada"
    ∷ entry 0x0EA1 "Canada"
    ∷ entry 0x07A2 "Cayman Islands"
    ∷ entry 0x0CA3 "Chile"
    ∷ entry 0x02A3 "Colombia"
    ∷ entry 0x08A2 "Costa Rica"
    ∷ entry 0x09A2 "Cuba"
    ∷ entry 0x0AA3 "Dominica"
    ∷ entry 0x0BA3 "Dominican Republic"
    ∷ entry 0x03A2 "Ecuador"
    ∷ entry 0x0CA4 "El Salvador"
    ∷ entry 0x04A2 "Falkland Islands"
    ∷ entry 0x05A3 "French Guiana"
    ∷ entry 0x0FA1 "Greenland"
    ∷ entry 0x0DA3 "Grenada"
    ∷ entry 0x0EA2 "Guadeloupe"
    ∷ entry 0x01A4 "Guatemala"
    ∷ entry 0x0FA3 "Guyana"
    ∷ entry 0x0DA4 "Haiti"
    ∷ entry 0x02A4 "Honduras"
    ∷ entry 0x03A3 "Jamaica"
    ∷ entry 0x04A3 "Martinique"
    ∷ entry 0x0BA5 "Mexico"
    ∷ entry 0x0DA5 "Mexico"
    ∷ entry 0x0EA5 "Mexico"
    ∷ entry 0x0FA5 "Mexico"
    ∷ entry 0x05A4 "Montserrat"
    ∷ entry 0x0DA2 "Netherlands Antilles"
    ∷ entry 0x07A3 "Nicaragua"
    ∷ entry 0x09A3 "Panama"
    ∷ entry 0x06A3 "Paraguay"
    ∷ entry 0x07A4 "Peru"
    ∷ entry 0x0AA4 "Saint Kitts"
    ∷ entry 0x0BA4 "Saint Lucia"
    ∷ entry 0x0FA6 "St Pierre and Miquelon"
    ∷ entry 0x0CA5 "Saint Vincent"
    ∷ entry 0x08A4 "Suriname"
    ∷ entry 0x06A4 "Trinidad and Tobago"
    ∷ entry 0x0EA3 "Turks and Caicos Islands"
    ∷ entry 0x09A4 "Uruguay"
    ∷ entry 0x0EA4 "Venezuela"
    ∷ entry 0x0FA5 "Virgin Islands (British)"
    ∷ entry 0x0AF0 "Afghanistan"
    ∷ entry 0x01A0 "United States of America"
    ∷ entry 0x02A0 "United States of America"
    ∷ entry 0x03A0 "United States of America"
    ∷ entry 0x04A0 "United States of America"
    ∷ entry 0x05A0 "United States of America"
    ∷ entry 0x06A0 "United States of America"
    ∷ entry 0x07A0 "United States of America"
    ∷ entry 0x08A0 "United States of America"
    ∷ entry 0x09A0 "United States of America"
    ∷ []

abbrev pub ctry_codes_4 : List CodeMap
ctry_codes_4 =
    entry 0x0AA0 "United States of America"
    ∷ entry 0x0BA0 "United States of America"
    ∷ entry 0x0DA0 "United States of America"
    ∷ entry 0x0EA0 "United States of America"
    ∷ entry 0x01F0 "Australia Capital Territory"
    ∷ entry 0x02F0 "New South Wales"
    ∷ entry 0x03F0 "Victoria"
    ∷ entry 0x04F0 "Queensland"
    ∷ entry 0x05F0 "South Australia"
    ∷ entry 0x06F0 "Western Australia"
    ∷ entry 0x07F0 "Tasmania"
    ∷ entry 0x08F0 "Northern Territory"
    ∷ entry 0x03F1 "Bangladesh"
    ∷ entry 0x0EF0 "Bahrain"
    ∷ entry 0x0BF1 "Brunei Darussalam"
    ∷ entry 0x02F1 "Bhutan"
    ∷ entry 0x03F2 "Cambodia"
    ∷ entry 0x0CF0 "China"
    ∷ entry 0x05F1 "Fiji"
    ∷ entry 0x0FF1 "Hong Kong"
    ∷ entry 0x05F2 "India"
    ∷ entry 0x0CF2 "Indonesia"
    ∷ entry 0x08F1 "Iran"
    ∷ entry 0x09F2 "Japan"
    ∷ entry 0x0DE3 "Kazakhstan"
    ∷ entry 0x01F1 "Kiribati"
    ∷ entry 0x0EF1 "Korea (South)"
    ∷ entry 0x0DF0 "Korea (North)"
    ∷ entry 0x01F2 "Kuwait"
    ∷ entry 0x03E4 "Kyrghyzstan"
    ∷ entry 0x01F3 "Laos"
    ∷ entry 0x06F2 "Macao"
    ∷ entry 0x0FF0 "Malaysia"
    ∷ entry 0x0BF2 "Maldives"
    ∷ entry 0x0EF3 "Micronesia"
    ∷ entry 0x0FF3 "Mongolia"
    ∷ entry 0x0BF0 "Myanmar (Burma)"
    ∷ entry 0x0EF2 "Nepal"
    ∷ entry 0x07F1 "Nauru"
    ∷ entry 0x09F1 "New Zealand"
    ∷ entry 0x06F1 "Oman"
    ∷ entry 0x04F1 "Pakistan"
    ∷ entry 0x08F2 "Philippines"
    ∷ entry 0x09F3 "Papua New Guinea"
    ∷ entry 0x02F2 "Qatar"
    ∷ entry 0x09F0 "Saudi Arabia"
    ∷ entry 0x0AF1 "Soloman Islands"
    ∷ entry 0x04F2 "Samoa"
    ∷ entry 0x0AF2 "Singapore"
    ∷ entry 0x0CF1 "Sri Lanka"
    ∷ entry 0x0DF1 "Taiwan"
    ∷ entry 0x05E3 "Tajikistan"
    ∷ entry 0x02F3 "Thailand"
    ∷ entry 0x03F3 "Tonga"
    ∷ entry 0x0EE4 "Turkmenistan"
    ∷ entry 0x0DF2 "United Arab Emirates"
    ∷ entry 0x0BE4 "Uzbekistan"
    ∷ entry 0x07F2 "Vietnam"
    ∷ entry 0x0FF2 "Vanuatu"
    ∷ entry 0x0BF3 "Yemen"
    ∷ []

-- The whole table.
abbrev pub ctry_codes : List CodeMap
ctry_codes = ctry_codes_1 ++ ctry_codes_2 ++ ctry_codes_3 ++ ctry_codes_4
