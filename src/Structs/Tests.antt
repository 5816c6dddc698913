-- ===== src/Structs/Tests.antt =====
-- A header of 161 bytes.
use doge_connect.Structs.Header.{header_size, make_header, header_size-make_header}
use doge_connect.Prelude.{◌≡◌, [], ◌∷◌, ◌++◌}

read_back_size : header_size (make_header 161 69 ++ (1 ∷ 2 ∷ [])) ≡ 161
read_back_size = header_size-make_header 161 69 (1 ∷ 2 ∷ [])
