-- ===== src/Compat/Specifiers/Tests.antt =====
-- Specifiers at concrete values.
use tube.Common.{◌≡◌, refl, none, some, [], ◌++◌}
use tube.Common.Text.{codes, starts_with, split}
use tube.Compat.Specifiers.{
  npm, jsr, break_at, split_package, parse_npm_specifier, parse_package_specifier, package_key,
}
use tube.Compat.Specifiers.RoundTrip.{scoped, parse_npm_specifier-package_key}

jsr_package :
    parse_package_specifier (codes "jsr:@std/path@^1/posix")
    ≡ some (record {
      name = codes "@jsr/std__path";
      range = codes "^1";
      subpath = codes "/posix";
      registry = jsr;
    })
unfolding parse_package_specifier split_package starts_with break_at split
jsr_package = refl

refused : parse_npm_specifier (codes "npm:@scope/") ≡ none
unfolding parse_npm_specifier split_package starts_with break_at
refused = refl

parse_npm_specifier-package_key_example :
    parse_npm_specifier (
      codes "npm:"
      ++ (package_key (record {
        name = codes "@a/b";
        range = codes "1";
        subpath = codes "/c";
        registry = npm;
      })
          ++ codes "/c"))
    ≡ some (record { name = codes "@a/b"; range = codes "1"; subpath = codes "/c"; registry = npm })
parse_npm_specifier-package_key_example =
    parse_npm_specifier-package_key (codes "1") (codes "/c")
      (scoped b'a' [] b'b' [] (refl, tt) (refl, tt)) (λ e. cc) (refl, tt) refl
