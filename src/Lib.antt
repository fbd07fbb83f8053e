-- ===== src/Lib.antt =====
-- A model of mergeway-cli, a program that keeps a database of objects in the YAML and JSON files of a
-- repository. A configuration declares the types of the objects and their fields; the objects of the
-- files are validated against it, changed through a store, and two snapshots are compared.
--
-- The parts, and the files that model them:
--
-- - Prelude and its children: numbers, texts, lists, results and lists of distinct texts.
-- - Go: what the code uses of Go itself and of its standard library, written by its documentation:
--   maps (Go/Map), the order of strings and sort.Strings (Go/Order), integers and their texts (Go/Int),
--   strings (Go/Text), strconv.ParseInt (Go/Parse), path/filepath on a POSIX system (Go/FilePath).
-- - Value: the values that the YAML and JSON decoders hand on, with the helpers of
--   internal/data/util.go (normalizeYAMLValue, normalizeObject, toSliceMap, cloneMap, mergeMaps) in
--   Value/Maps, Value/Normalize and Value/Merge, and AsString of internal/scalar/scalar.go in
--   Value/Scalar.
-- - Config: internal/config. Config/Model and Config/Raw are the structures of model.go and raw.go,
--   Config/IsA the queries IsA, DescendantTypes and AssignableTypes. Config/Load is load.go up to
--   the normalisation (loadRecursive, merge, addDocument). Of normalize.go, Config/Graph is
--   buildInheritanceGraph, Config/Cycles validateInheritanceCycles, Config/Fields
--   normalizeFieldDefinition, normalizeFieldSource and normalizeIncludeDirectives, Config/References
--   parseReferenceTypes, Config/Links validateFieldReferences, Config/Inherit mergeInheritedFields
--   and normalizeIdentifierDefinition, Config/Types normalizeTypeDefinition, which
--   composes them, and Config/Names the tests of names. Config/PathSource is
--   DerivePathSourceValue of path_source.go.
-- - Validation: internal/validation. Validation/Field checks a value against a field (validateField,
--   validateFieldValue), Validation/Schema the objects of a type (validateTypeSchema),
--   Validation/Index builds the index by assignable type (validateSchema, buildAssignableIndex),
--   Validation/References resolves the references (validateReferences), Validation/Phases puts the
--   phases in order (ValidateWithOps).
-- - Diff: internal/diff/diff_semantic.go. Diff/Canonical is semanticCanonicalValue, Diff/Fields
--   diffObjectFields and diffLogicalValues, Diff/Database diffLogicalDatabases.
-- - Store: internal/data. Store/Defs is model.go, with the file system, the codecs and the other
--   libraries as one record of parameters (Env) and its laws (IsLawful). Store/Paths has the file
--   names of util.go and identifier.go, Store/Identifier the identifiers of identifier.go,
--   Store/Derived is derived_fields.go, Store/Files fileio.go (loadFile, writeFile,
--   chooseCreateTarget), Store/Load and Store/LoadAll are load.go (findObject, findExactObject,
--   loadAll), Store/Operations is store_ops.go (List, Get, Create, Update, Delete).
-- - Workspace: internal/workspace. Workspace/Index is the loading of service.go with its index over
--   the store's objects, Workspace/Runtime the operations of the runtime of overlays.go,
--   Workspace/Runtime/Steps its runs, in which calls, the timer and reloads interleave,
--   Workspace/Runtime/View what they show, without the lock, the timer and the copies, and
--   Workspace/Overlay the file operations with open documents laid over the files.
-- - Tests: the theorems at concrete inputs, and runs of the definitions; Tests/Disk is a file system
--   in memory.
--
-- How the code is read. A pointer that the code never leaves nil is the value behind it; other
-- pointers are options. A map is the list of its entries, in the order of one iteration. An error is
-- the constructor of its message with what the message shows. A shared object that a run changes
-- (the identifier of an object, the index) is passed on as the new value. An operation on files takes
-- the state of the file system and returns the new one with its result, so that what a failed
-- operation has written stays written.
--
-- Fuel: IsA walks the types that a type extends, one round more than there are types; in a
-- configuration without a cycle no name comes twice. The search for cycles has one call more than
-- the graph has names, since a name that is on the stack is not visited again. Loading a configuration
-- goes one file deeper with each round, and no file is twice on the stack.
--
-- Parameters: the fields that a JSON schema gives, json.Marshal of a scalar and of a map,
-- strconv.FormatFloat, the verbs of fmt, regular expressions, the parsers of addresses and URLs,
-- strings.ToLower, filepath.Match, the file system and the codecs of YAML and JSON, what is collected
-- from files for a validation, and, for a reload of the workspace, the loading and validation that it
-- calls.
-- Not modelled: the system calls on files, the decoders of YAML and JSON, the walk of
-- normalizeAggregate over the inheritance graph, the detection of workspace roots, Git snapshots, the
-- command line, the servers, the formatter, and the rendering of differences.
pub mod Config
pub mod Diff
pub mod Go
pub mod Prelude
pub mod Store
pub mod Tests
pub mod Validation
pub mod Value
pub mod Workspace
