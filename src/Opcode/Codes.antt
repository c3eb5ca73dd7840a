-- ===== src/Opcode/Codes.antt =====
-- The codes tell the instructions apart.
use csci_480_assignment.Base.{◌≡◌, refl, some}
use csci_480_assignment.Opcode.{Opcode, code, of_code, incr}

-- The cast of the code of an instruction gives the instruction.
pub of_code-code : (op : Opcode) → of_code (code op) ≡ some op
unfolding of_code
of_code-code incr = refl
of_code-code _ = refl
