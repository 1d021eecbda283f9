-- ===== src/Codes/Programmes.antt =====
-- gui/rds_codes.c: `pty_codes`, the names of the programme types.
use Prim.Native.String.{String}
use jmpxrds.Base.{List, [], ◌∷◌}

abbrev pub pty_codes : List String
pty_codes =
    "None" ∷ "News" ∷ "Current Afairs" ∷ "Information" ∷ "Sport" ∷ "Education" ∷ "Drama" ∷ "Culture"
    ∷ "Science" ∷ "Varied Speech" ∷ "Pop Music" ∷ "Rock Music" ∷ "Easy Listening" ∷ "Light Classics"
    ∷ "Serious Classics" ∷ "Other Music" ∷ "Weather" ∷ "Finance" ∷ "Children's Progs"
    ∷ "Social Affairs" ∷ "Religion" ∷ "Phone In" ∷ "Travel & Touring" ∷ "Leisure & Hobby"
    ∷ "Jazz Music" ∷ "Country Music" ∷ "National Music" ∷ "Oldies" ∷ "Folk Music" ∷ "Documentary"
    ∷ "Alarm Test" ∷ "Alarm !" ∷ []
