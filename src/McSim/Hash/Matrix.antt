-- ===== src/McSim/Hash/Matrix.antt =====
-- The matrix of class H3.
pub mod First
pub mod Second
pub mod Third
pub mod Fourth
use row_armor.Base.{ℕ, List, [], ◌∷◌, ◌++◌, get_or}
use row_armor.McSim.Hash.Matrix.First.{first_rows}
use row_armor.McSim.Hash.Matrix.Second.{second_rows}
use row_armor.McSim.Hash.Matrix.Third.{third_rows}
use row_armor.McSim.Hash.Matrix.Fourth.{fourth_rows}

unfoldable pub h3_matrix : List (List ℕ)
unfolding first_rows second_rows third_rows fourth_rows
h3_matrix = first_rows ++ second_rows ++ third_rows ++ fourth_rows
