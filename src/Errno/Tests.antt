-- ===== src/Errno/Tests.antt =====
-- Error numbers at concrete values.
use relay_os.Prelude.{◌≡◌, refl}
use relay_os.Errno.{erofs, eio, number, from_number, from_number-number}

from_number-number_example : from_number (number erofs) ≡ erofs
from_number-number_example = from_number-number erofs

unknown_number : from_number 6 ≡ eio
unfolding from_number
unknown_number = refl
