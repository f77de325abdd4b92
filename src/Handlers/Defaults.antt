-- ===== src/Handlers/Defaults.antt =====
-- The record types that src/nodeinfo.c knows before any of them has functions: the opcode and the flags
-- of each entry of prf_nodeinfo_defaults.
use profit.Prelude.{ℕ, ◌+◌, List, [], ◌∷◌, ◌++◌}

-- the flags of include/profit/nodeinfo.h
abbrev pub push_node : ℕ
push_node = 0x0001

abbrev pub pop_node : ℕ
pop_node = 0x0002

abbrev pub vertex : ℕ
vertex = 0x0010

abbrev pub transform : ℕ
transform = 0x0020

abbrev pub definition : ℕ
definition = 0x0040

abbrev pub reference : ℕ
reference = 0x0080

abbrev pub primary : ℕ
primary = 0x0100

abbrev pub ancillary : ℕ
ancillary = 0x0200

abbrev pub control_type : ℕ
control_type = 0x0400

abbrev pub continuation : ℕ
continuation = 0x0800

abbrev pub reserved : ℕ
reserved = 0x4000

abbrev pub obsolete : ℕ
obsolete = 0x8000

-- the entries up to opcode 73, and those behind them
abbrev first_defaults : List (ℕ × ℕ)
first_defaults =
    (1, primary)
    ∷ (2, primary)
    ∷ (3, primary + obsolete)
    ∷ (4, primary)
    ∷ (5, primary)
    ∷ (6, vertex + obsolete)
    ∷ (7, vertex + obsolete)
    ∷ (8, vertex + obsolete)
    ∷ (9, vertex + obsolete)
    ∷ (10, control_type + push_node)
    ∷ (11, control_type + pop_node)
    ∷ (12, ancillary + transform + obsolete)
    ∷ (13, primary + obsolete)
    ∷ (14, primary)
    ∷ (16, control_type + reference + obsolete)
    ∷ (17, control_type + definition + obsolete)
    ∷ (19, control_type + push_node)
    ∷ (20, control_type + pop_node)
    ∷ (21, control_type + push_node)
    ∷ (22, control_type + pop_node)
    ∷ (23, continuation)
    ∷ (31, ancillary)
    ∷ (32, ancillary)
    ∷ (33, ancillary)
    ∷ (40, ancillary + transform + obsolete)
    ∷ (41, ancillary + transform + obsolete)
    ∷ (42, ancillary + transform + obsolete)
    ∷ (43, ancillary + transform + obsolete)
    ∷ (44, ancillary + transform + obsolete)
    ∷ (45, ancillary + transform + obsolete)
    ∷ (46, ancillary + transform + obsolete)
    ∷ (47, ancillary + transform + obsolete)
    ∷ (48, ancillary + transform + obsolete)
    ∷ (49, ancillary + transform)
    ∷ (50, ancillary)
    ∷ (51, ancillary + obsolete)
    ∷ (52, ancillary)
    ∷ (53, ancillary)
    ∷ (55, primary)
    ∷ (60, ancillary + reference)
    ∷ (61, control_type + reference)
    ∷ (62, control_type + definition)
    ∷ (63, primary + reference)
    ∷ (64, ancillary)
    ∷ (65, ancillary + obsolete)
    ∷ (66, ancillary + obsolete)
    ∷ (67, ancillary)
    ∷ (68, vertex)
    ∷ (69, vertex)
    ∷ (70, vertex)
    ∷ (71, vertex)
    ∷ (72, primary)
    ∷ (73, primary)
    ∷ []

abbrev last_defaults : List (ℕ × ℕ)
last_defaults =
    (74, ancillary)
    ∷ (76, ancillary + transform)
    ∷ (77, ancillary + transform + obsolete)
    ∷ (78, ancillary + transform)
    ∷ (79, ancillary + transform)
    ∷ (80, ancillary + transform)
    ∷ (81, ancillary + transform)
    ∷ (82, ancillary + transform)
    ∷ (83, ancillary)
    ∷ (84, primary)
    ∷ (85, primary)
    ∷ (86, primary)
    ∷ (87, primary)
    ∷ (88, ancillary)
    ∷ (89, primary)
    ∷ (90, ancillary)
    ∷ (91, primary)
    ∷ (92, primary)
    ∷ (93, ancillary)
    ∷ (94, ancillary + transform)
    ∷ (95, primary)
    ∷ (96, primary)
    ∷ (97, ancillary)
    ∷ (98, primary)
    ∷ (100, primary)
    ∷ (101, primary)
    ∷ (102, ancillary)
    ∷ (103, reserved)
    ∷ (104, reserved)
    ∷ (105, ancillary)
    ∷ (106, ancillary)
    ∷ (107, reserved)
    ∷ (108, ancillary)
    ∷ (109, ancillary)
    ∷ (110, ancillary + obsolete)
    ∷ (111, primary)
    ∷ (112, ancillary)
    ∷ (113, ancillary)
    ∷ (114, ancillary)
    ∷ (115, primary)
    ∷ (116, ancillary)
    ∷ (117, reserved)
    ∷ (118, reserved)
    ∷ (119, reserved)
    ∷ (120, reserved)
    ∷ (121, reserved)
    ∷ (122, control_type + push_node)
    ∷ (123, control_type + pop_node)
    ∷ (124, reserved)
    ∷ (125, 0)
    ∷ (126, primary)
    ∷ (127, primary)
    ∷ (128, ancillary)
    ∷ (129, ancillary)
    ∷ (130, primary)
    ∷ (131, primary)
    ∷ (132, ancillary)
    ∷ (133, ancillary)
    ∷ []

-- `prf_nodeinfo_defaults`
abbrev pub nodeinfo_defaults : List (ℕ × ℕ)
nodeinfo_defaults = first_defaults ++ last_defaults
