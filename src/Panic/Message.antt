-- ===== src/Panic/Message.antt =====
-- Kernel/Core/ErrorHandling/Panic.cpp: calls of PutString behind each other print one text.
use objective_hail_os.Prelude.{ℕ, ◌≡◌, sym, ◌∙◌, List, [], ◌∷◌, concat, >>=-ext}
use objective_hail_os.Output.{OutputDevice}
use objective_hail_os.Output.Text.{IsTextual, put_string-append}
use objective_hail_os.Panic.{print}

pub print-concat :
    {S : Type 0} (con : OutputDevice S) (s : S) (lines : List (List ℕ))
    → IsTextual con
    → print con s lines ≡ con.put_string s (concat lines)
unfolding print
print-concat con s [] textual = sym (textual.empty s)
print-concat con s (text ∷ lines) textual =
    >>=-ext (con.put_string s text) (λ s1. print-concat con s1 lines textual)
    ∙ put_string-append con textual s text (concat lines)
