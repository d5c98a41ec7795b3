-- ===== src/Lib.antt =====
-- photesthesis, a library for grammar-based generative and regression testing: a grammar generates
-- values, a plan assigns values to the parameters of a test, a run of the test gives a transcript, and
-- a corpus keeps the transcripts. The paths below are those of the repository.
--
-- The parts, and how they build on one another:
--   Shared       names of the libraries, numbers and lists, orders (Order, Compose), 64-bit integers
--                (Ints), std::set (SetOf) and std::map (MapOf) as sorted lists over an operator<.
--   Symbol       Symbol of src/symbol.cpp: interned text. The static table is explicit state, with the
--                address of each allocation an argument; Symbol/Interning has the theorems. Elsewhere
--                a symbol is its text.
--   Value        Value of src/value.cpp: seven kinds of value as a data type (Value, Cells), sizes,
--                equality and order. Value/Match is match and matchOne of value.h, headSymbol of
--                util.h; Value/Lists the constructors from vectors.
--   Text         operator<< and operator>> of src/value.cpp: Printer, and Parser over a stream state
--                (Stream, Digits) with failbit and eofbit; RoundTrip has the theorem, Numbers and Steps
--                its parts.
--   VecMap       vecMapHas, vecMapGet and vecMapAdd of include/photesthesis/util.h.
--   Plan         Plan of src/corpus.cpp: members, the bytes that its hash is taken of, operator< and
--                operator==. The hash function is an argument.
--   Transcript   Transcript of src/corpus.cpp: members, operator< and operator==.
--   Corpus       Corpus of src/corpus.cpp: a map from names to sorted sets of transcripts. Invariant,
--                Store and Operations have the theorems.
--   Grammar      src/grammar.cpp: atoms, productions, contexts, rules, addRule,
--                getActiveProductions (Active), the stack of a context (Scope). Random is
--                randomValueFromRule and randomlyPopulatePlan over a generator and a distribution that
--                are arguments; Language describes the values of a rule without any algorithm, and
--                Complete and Progress are about grammars on which the generation cannot fail, and
--                Populate about the plans that it fills. Cycling is the two extendByCycling, and
--                Covering is kPathCoveringOrMinimalExpansion, with what it covers in its
--                modules Passing, Chosen, Elements, Found and Covered, Paths is expandKPathPrefix and
--                generateKPathSet, Coverings the loops over them up to populatePlansFromKPathCoverings,
--                and Naming is about the names of the plans made.
--   Save         operator<< and operator>> of plans and transcripts, and the constructor, save and the
--                destructor of Corpus, of src/corpus.cpp: Tokens is what they take from a stream, with
--                the expectations of util.h, Plans, Transcripts and Files the operators and the loops.
--                The file is its text, and the stream throws where failbit is set, as the constructor
--                opens it. Reading, Lines, Labels, Texts, RoundTrip, Lengths, Flatten, Loading
--                and Saving have the theorems.
--   Test         Test of src/test.cpp: the object's state as a record, and its functions in a monad of
--                state and exceptions. Counters is the table CounterClasses, Run is runPlan with what
--                it calls, Stabilize is runPlanAndStabilize, Expand is runPlanAndMaybeExpandCorpus,
--                randomlyExpandCorpus and initializeCorpusFromKPaths, Administer is checkCorpus and
--                administer. Outside is what they take from elsewhere: the user's run as the calls that
--                it makes, the hash, the random engine, the edge counters and the environment. Outcomes
--                has the postconditions; Classes, Observations, Stability, Determinism, Tracking,
--                Placing, Expansion, Loops, Iteration, Checking and Driver have the theorems.
--
-- State is passed explicitly. An exception and a failed assertion are values: `none`, or a constructor
-- of an error type; the build defines no NDEBUG, so an assertion counts as a guard. std::set and
-- std::map are sorted lists without duplicates, which what inserts into them keeps.
--
-- Fuel: value_lt compares on fuel as large as the sizes of both values, which is enough since each level
-- of nesting is smaller; parse_value takes fuel, of which the length of the text is enough; the loop of
-- extendByCycling takes one more than both lengths, since each turn takes a step of a first round. The
-- inner loop of runPlanAndStabilize takes one more than there are counters, since each turn but the last
-- masks one; the loop of checkCorpus takes one more than there are transcripts. The
-- readers of the corpus file take one more than the text has characters, since a round of each loop takes
-- a character at least. The fuel of
-- expandKPathPrefix and of the loop of kPathCovering is an argument, and that it ran out is an outcome: the
-- latter does not end on a path that is never covered. What the source bounds by a depth limit recurses on that limit, and needs none.
--
-- Not modelled: the messages of exceptions, and the file system behind the corpus file; what the test
-- driver prints, its verbosity, and its two handlers, which only print (src/test.cpp); the
-- bundled hash (include/photesthesis/3rdparty), and the example program (test). The mutex of the
-- symbol table makes its calls atomic, so their sequences are all there is to see.
pub mod Shared
pub mod Symbol
pub mod Value
pub mod Text
pub mod VecMap
pub mod Plan
pub mod Transcript
pub mod Corpus
pub mod Grammar
pub mod Save
pub mod Test
