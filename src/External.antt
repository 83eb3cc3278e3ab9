-- ===== src/External.antt =====
-- What the program takes from outside its own sources: the processor's `double`, the generators of
-- <random>, and the operating system. Their types and operations are parameters, and what is relied
-- on is stated here.
use frequent_cron.Base.{
  ℕ, ◌≡◌, String, Bool, false, Option, List, ◌==◌, string_eq, nat_eq, if◌then◌else◌,
}
use frequent_cron.Base.Int.{ℤ, ◌≤ℤ◌}

-- `double`, as far as the program computes with it.
pub record Double (D : Type 0) : Type 0 where
  pub nought : D
  pub one : D
  -- a < b, a <= b; both are false where an operand is not a number
  pub lt : D → D → Bool
  pub le : D → D → Bool
  -- static_cast<double>( int ), and static_cast<int>( std::round( x ) )
  pub of_int : ℤ → D
  pub round : D → ℤ
  -- `<<` on a stream
  pub print : D → String

-- `std::mt19937` with the three distributions that the program draws from.
pub record Random (D : Type 0) : Type 1 where
  pub State : Type 0
  pub uniform_int : ℤ → ℤ → State → ℤ × State
  pub normal : D → D → State → D × State
  pub uniform_real : D → D → State → D × State

-- `std::uniform_int_distribution` stays within the limits that it is given.
pub record IsUniform {D : Type 0} (r : Random D) : Type 0 where
  pub within :
      (lo hi : ℤ) (g : r.State)
      → lo ≤ℤ hi
      → (lo ≤ℤ (r.uniform_int lo hi g).0) × ((r.uniform_int lo hi g).0 ≤ℤ hi)

-- The operating system, as the service commands use it. Other processes run too, so that every call
-- may find another state; `sleep` in particular.
pub record Os : Type 1 where
  pub State : Type 0
  -- std::filesystem::exists and remove
  pub exists : String → State → Bool
  pub remove : String → State → State
  -- the bytes of a file that std::ifstream can open
  pub read : String → State → Option (List ℕ)
  -- kill( pid, 0 ) == 0, and kill( pid, SIGTERM )
  pub alive : ℤ → State → Bool
  pub terminate : ℤ → State → State
  -- usleep
  pub sleep : ℕ → State → State
  pub system : String → State → ℤ × State
  -- readlink( "/proc/self/exe" )
  pub self_exe : State → Option String

-- A file that was removed is not there, and no other file appears or goes by it.
pub record IsRemoving (o : Os) : Type 0 where
  pub removed :
      (p q : String) (s : o.State)
      → o.exists q (o.remove p s) ≡ (if p == q then false else o.exists q s)
